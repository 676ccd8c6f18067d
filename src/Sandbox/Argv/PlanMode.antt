-- ===== src/Sandbox/Argv/PlanMode.antt =====
-- What plan mode leaves writable (`SandboxConfig.build_argv` of src/xarness/sandbox.py).
use xarness.Prelude.{
  ◌≡◌, refl, sym, subst, ◌∙◌, Bool, true, false, not, ◌&&◌, ◌||◌, Option, none, some, List, [], ◌∷◌,
  ◌++◌, Text, codes, any, any-append, append_assoc, arith, if◌then◌else◌, Bool-cases, Option-cases,
  inl, inr,
}
use xarness.Prelude.Strip.{text_eq, text_eq_refl}
use xarness.Sandbox.Paths.{is_absolute, refs_anchor, tool_root}
use xarness.Sandbox.Refs.{Refs}
use xarness.Config.Checks.{strip_slashes}
use xarness.Sandbox.Argv.{
  Arg, ro_bind, bind, dev_bind, tmpfs, proc, dev, chdir, unshare_all, new_session, hostname, setenv,
  share_net, die_with_parent, Machine, SandboxConfig, under, ensure_mount_dir, workspace_anchor,
  uses_project_venv,
}
use xarness.Sandbox.Argv.Binds.{
  when, bind_one, bind_existing, bind_link, system_ro_binds, bind_devices, bind_modules,
  system_paths, gpu_devices, driver_paths, caps_unusable, gpu_binds, filter_binds, venv_bind,
  cache_binds_and_env, ref_binds_from, ref_binds,
}
use xarness.Sandbox.Argv.Each.{
  Clean, Clean-nil, Clean-cons, Clean-append, Clean-when, Clean-when_append, Clean-one,
  cache_binds_and_env-Clean,
}
use xarness.Sandbox.Argv.Build.{
  bind_git, git_binds, proxies, proxy_vars, base_args, workspace_args, last_args, sandbox_args,
  relative_to,
}

true_last : (b : Bool) → (b || true) ≡ true
true_last b = ground arith

module _ (m : Machine) (c : SandboxConfig) where
  -- The source and the target of each mount that stays writable: the cache, that of uv, the project's
  -- venv, which stands in the cache, and the empty directory over the capabilities of a graphics card.
  abbrev writable : List (Text × Text)
  writable =
      (m.cache_root, codes "/cache")
      ∷ (under m.home (codes ".cache/uv"), codes "/cache/uv")
      ∷ (
        under (under m.cache_root (codes "venvs")) (m.venv_name c.workspace),
        codes "/workspace/.venv",
      )
      ∷ (m.empty_dir, codes "/proc/driver/nvidia/capabilities")
      ∷ []

  abbrev is_mount : Text → Text → Text × Text → Bool
  is_mount source target (a, b) = text_eq b target && text_eq a source

  -- The nodes of the graphics cards, where they are given.
  abbrev gpu_node : Text → Bool
  gpu_node node = c.gpu_access && any (text_eq node) (gpu_devices ++ m.gpu_nodes)

  -- A host directory mounted writable that is none of these, or a device that is no node of a
  -- graphics card, mounted in its own place, or that is given without being asked for.
  unfoldable pub exposed : Arg → Bool
  exposed (bind source target) = not (any (is_mount source target) writable)
  exposed (dev_bind source target) = not (text_eq source target && gpu_node source)
  exposed _ = false

  bind_existing-Clean : (paths : List Text) → Clean exposed (bind_existing m paths)
  unfolding bind_existing exposed
  bind_existing-Clean [] = Clean-nil exposed
  bind_existing-Clean (path ∷ paths) =
      Clean-when_append exposed (m.exists path) (ro_bind path path ∷ []) (bind_existing m paths)
        (Clean-one exposed (ro_bind path path) refl) (bind_existing-Clean paths)

  gpu_node-has :
      (before nodes : List Text) (node : Text)
      → c.gpu_access ≡ true
      → gpu_devices ++ m.gpu_nodes ≡ before ++ node ∷ nodes
      → gpu_node node ≡ true
  gpu_node-has before nodes node g h =
      let hit : any (text_eq node) (before ++ node ∷ nodes) ≡ true =
        any-append (text_eq node) before (node ∷ nodes)
        ∙ rw (text_eq_refl node) (true_last (any (text_eq node) before)) in
      ground (arith, g, subst (λ all. any (text_eq node) all ≡ true) (sym h) hit)

  bind_devices-Clean :
      (before nodes : List Text)
      → c.gpu_access ≡ true
      → gpu_devices ++ m.gpu_nodes ≡ before ++ nodes
      → Clean exposed (bind_devices m nodes)
  unfolding bind_devices exposed
  bind_devices-Clean before [] g h = Clean-nil exposed
  bind_devices-Clean before (node ∷ nodes) g h =
      Clean-when_append exposed (if m.is_dir node then m.has_entries node else m.exists node)
        (dev_bind node node ∷ []) (bind_devices m nodes)
        (Clean-one exposed (dev_bind node node)
          (rw (text_eq_refl node, gpu_node-has before nodes node g h) refl))
        (bind_devices-Clean (before ++ node ∷ []) nodes g
          (h ∙ sym (append_assoc before (node ∷ []) nodes)))

  bind_modules-Clean : (paths : List Text) → Clean exposed (bind_modules m paths)
  unfolding bind_modules exposed
  bind_modules-Clean [] = Clean-nil exposed
  bind_modules-Clean (path ∷ paths) =
      Clean-when_append exposed (m.is_dir path) (ro_bind path path ∷ []) (bind_modules m paths)
        (Clean-one exposed (ro_bind path path) refl) (bind_modules-Clean paths)

  bind_link-Clean : (link target : Text) → Clean exposed (bind_link m link target)
  unfolding exposed
  bind_link-Clean link target = record { clean = ground arith }

  filter_binds-Clean :
      (workspace : Text) (rels : List Text) → Clean exposed (filter_binds m workspace rels)
  unfolding filter_binds exposed
  filter_binds-Clean workspace [] = Clean-nil exposed
  filter_binds-Clean workspace (rel ∷ rels) =
      let path = under workspace (strip_slashes rel) in
      let hidden =
        ro_bind (if m.is_dir path then m.empty_dir else m.empty_file)
          (under workspace_anchor (strip_slashes rel)) in
      Clean-when_append exposed (m.exists path) (hidden ∷ []) (filter_binds m workspace rels)
        (Clean-one exposed hidden refl) (filter_binds-Clean workspace rels)

  bind_one-clean :
      (read_only : Bool) (source target : Text)
      → read_only ≡ true
      → exposed (bind_one read_only source target) ≡ false
  unfolding exposed
  bind_one-clean read_only source target h = rw h refl

  ref_binds_from-Clean :
      (anchored : Bool) (refs : Refs)
      → c.read_only ≡ true
      → Clean exposed (ref_binds_from m c anchored refs)
  unfolding ref_binds_from exposed
  ref_binds_from-Clean anchored [] h = Clean-nil exposed
  ref_binds_from-Clean anchored ((alias, ref) ∷ refs) h =
      let ro = ref.read_only || c.read_only in
      let both : (ref.read_only || c.read_only) ≡ true = ground arith in
      elim (Bool-cases (is_absolute ref.mount)) [
        | inl e ↦ rw e (
            Clean-when_append exposed (not anchored) (tmpfs refs_anchor ∷ [])
              (bind_one ro ref.host ref.mount ∷ ref_binds_from m c true refs)
              (Clean-one exposed (tmpfs refs_anchor) refl)
              (Clean-cons exposed _ _ (bind_one-clean ro ref.host ref.mount both)
                (ref_binds_from-Clean true refs h)))
        | inr e ↦ elim (Bool-cases (ensure_mount_dir m (under c.workspace ref.mount))) [
          | inl f ↦
              rw (e, f)
                (Clean-cons exposed _ _
                  (bind_one-clean ro ref.host
                    (under (tool_root c.use_sandbox c.workspace) ref.mount) both)
                  (ref_binds_from-Clean anchored refs h))
          | inr f ↦ rw (e, f) (ref_binds_from-Clean anchored refs h)
        ]
      ]

  system_ro_binds-Clean : Clean exposed (system_ro_binds m)
  unfolding system_ro_binds exposed
  system_ro_binds-Clean = Clean-cons exposed _ _ refl (
      Clean-when_append exposed (m.exists (codes "/etc/resolv.conf")) _ _ (Clean-one exposed _ refl)
        (Clean-append exposed _ _ (bind_existing-Clean system_paths) (
          Clean-append exposed _ _ (bind_link-Clean (codes "/bin") (codes "usr/bin")) (
            Clean-append exposed _ _ (bind_link-Clean (codes "/lib") (codes "usr/lib")) (
              Clean-append exposed _ _ (bind_link-Clean (codes "/lib64") (codes "usr/lib64"))
                (bind_link-Clean (codes "/sbin") (codes "usr/sbin")))))))

  gpu_binds-Clean : c.gpu_access ≡ true → Clean exposed (gpu_binds m)
  unfolding gpu_binds exposed
  gpu_binds-Clean g =
      Clean-append exposed _ _ (bind_devices-Clean [] (gpu_devices ++ m.gpu_nodes) g refl) (
        Clean-append exposed _ _ (bind_existing-Clean driver_paths) (
          Clean-append exposed _ _ (bind_modules-Clean m.gpu_modules) (
            Clean-when exposed (caps_unusable m) _ (
              Clean-one exposed (bind m.empty_dir (codes "/proc/driver/nvidia/capabilities"))
                (rw (text_eq_refl m.empty_dir) refl)))))

  bind_git-Clean : (git_dir : Text) (rel : Option Text) → Clean exposed (bind_git c git_dir rel)
  unfolding exposed
  bind_git-Clean git_dir none = Clean-nil exposed
  bind_git-Clean git_dir (some rel) = Clean-one exposed _ refl

  git_binds-Clean : Clean exposed (git_binds c)
  unfolding git_binds exposed
  git_binds-Clean = elim (Option-cases c.git_dir) [
    | inl e ↦ rw (git_binds, e) (Clean-nil exposed)
    | inr (git_dir, e) ↦ elim (Bool-cases c.git_external) [
      | inl f ↦ rw (git_binds, e, f) (record { clean = refl })
      | inr f ↦ rw (git_binds, e, f) (bind_git-Clean git_dir (relative_to c.workspace git_dir))
    ]
  ]

  proxies-Clean : (vars : List Text) → Clean exposed (proxies m vars)
  unfolding proxies exposed
  proxies-Clean [] = Clean-nil exposed
  proxies-Clean (var ∷ vars) = elim (Option-cases (m.environ var)) [
    | inl e ↦ rw (proxies, e) (proxies-Clean vars)
    | inr (value, e) ↦ rw (proxies, e) (Clean-cons exposed _ _ refl (proxies-Clean vars))
  ]

  last_args-Clean : Clean exposed (last_args m c)
  unfolding last_args exposed
  last_args-Clean =
      Clean-append exposed
        (chdir workspace_anchor
          ∷ unshare_all
          ∷ new_session
          ∷ hostname (codes "sandbox")
          ∷ setenv (codes "LANG") (codes "C.UTF-8")
          ∷ setenv (codes "PYTHONUNBUFFERED") (codes "1")
          ∷ [])
        _ (record { clean = refl })
        (Clean-when_append exposed c.allow_network _ _
          (Clean-append exposed (proxies m proxy_vars) _ (proxies-Clean proxy_vars)
            (Clean-one exposed share_net refl))
          (Clean-one exposed die_with_parent refl))

  venv_bind-Clean : c.use_sandbox ≡ true → Clean exposed (venv_bind m c)
  unfolding venv_bind exposed tool_root
  venv_bind-Clean u =
      Clean-when exposed
        (uses_project_venv m c && ensure_mount_dir m (under c.workspace (codes ".venv"))) _
        (Clean-one exposed
          (bind (under (under m.cache_root (codes "venvs")) (m.venv_name c.workspace))
            (under (tool_root c.use_sandbox c.workspace) (codes ".venv")))
          (rw
            (u, text_eq_refl (under (under m.cache_root (codes "venvs")) (m.venv_name c.workspace)))
            refl))

  caches-Clean : c.use_sandbox ≡ true → Clean exposed (cache_binds_and_env m c)
  unfolding exposed
  caches-Clean u =
      cache_binds_and_env-Clean exposed m (λ var value. refl) (λ var. refl) (λ source name. refl)
        (rw (text_eq_refl m.cache_root) refl)
        (rw (text_eq_refl (under m.home (codes ".cache/uv"))) refl) c (venv_bind-Clean u)

  Clean-when_asked :
      (test : Bool) (args : List Arg)
      → (test ≡ true → Clean exposed args)
      → Clean exposed (when test args)
  Clean-when_asked true args h = h refl
  Clean-when_asked false args h = Clean-nil exposed

  base_args-Clean : Clean exposed (base_args m c)
  unfolding base_args exposed
  base_args-Clean = Clean-cons exposed _ _ refl (
      Clean-append exposed (system_ro_binds m) _ (system_ro_binds-Clean) (
        Clean-append exposed (proc (codes "/proc") ∷ dev (codes "/dev") ∷ tmpfs (codes "/tmp") ∷ [])
          _ (record { clean = refl })
          (Clean-when_asked c.gpu_access (gpu_binds m) gpu_binds-Clean)))

  workspace_args-Clean : c.read_only ≡ true → Clean exposed (workspace_args m c)
  unfolding workspace_args exposed
  workspace_args-Clean h =
      Clean-cons exposed _ _ (bind_one-clean c.read_only c.workspace workspace_anchor h) (
        Clean-append exposed _ _ (filter_binds-Clean c.workspace c.filter_list) (
          Clean-when_append exposed (m.is_file (under c.workspace (codes "uv.lock"))) _ _
            (Clean-one exposed _ refl) (git_binds-Clean)))

  -- In plan mode no host directory is mounted writable into a sandbox but the cache at its anchor, that
  -- of uv, the project's venv out of the cache, and the empty directory over a graphics card's
  -- capabilities, each in its one place, whatever the references ask for; and no device is given but
  -- the nodes of the graphics cards, where they are asked for.
  pub sandbox_args-plan_mode :
      c.use_sandbox ≡ true → c.read_only ≡ true → any exposed (sandbox_args m c) ≡ false
  unfolding sandbox_args ref_binds
  sandbox_args-plan_mode u h =
      (Clean-append exposed _ _ (base_args-Clean) (
        Clean-append exposed _ _ (workspace_args-Clean h) (
          Clean-append exposed _ _ (caches-Clean u) (
            Clean-append exposed _ _ (ref_binds_from-Clean false c.external_refs h)
              (last_args-Clean))))).clean
