-- ===== src/Sandbox/Argv/GitGuard.antt =====
-- The mount of the repository (`SandboxConfig.build_argv` of src/xarness/sandbox.py).
use xarness.Prelude.{
  ◌≡◌, refl, ap, sym, subst, ◌∙◌, Bool, true, false, not, ◌&&◌, ◌||◌, some, List, [], ◌∷◌, ◌++◌,
  Text, codes, append_assoc, any, arith, Bool-cases, Option-cases, inl, inr,
}
use xarness.Prelude.Strip.{
  text_eq, text_eq-longer, text_eq→≡, drop_prefix, drop_prefix-append, drop_prefix-rest,
}
use xarness.Sandbox.Paths.{slash, is_absolute, refs_anchor, tool_root}
use xarness.Sandbox.Refs.{Refs}
use xarness.Sandbox.Argv.{
  ro_bind, bind, tmpfs, chdir, unshare_all, new_session, hostname, setenv, share_net,
  die_with_parent, Machine, SandboxConfig, under, covers, ensure_mount_dir, workspace_anchor,
  uses_project_venv,
}
use xarness.Sandbox.Argv.Binds.{
  when, bind_one, filter_binds, venv_bind, cache_binds_and_env, ref_binds_from, ref_binds,
}
use xarness.Sandbox.Argv.Each.{
  Clean, Clean-nil, Clean-cons, Clean-append, Clean-when, Clean-when_append, Clean-one,
  cache_binds_and_env-Clean,
}
use xarness.Sandbox.Argv.Seen.{
  mounts_over, seen, ref_target, may_cover, shadowed, target_absolute, target_relative,
  target_in_workspace, neither, not_covered, bind_one-over, seen-later, seen-earlier,
}
use xarness.Sandbox.Argv.Build.{
  relative_to, git_binds, proxies, proxy_vars, base_args, workspace_args, last_args, sandbox_args,
}

-- A path at or below `/workspace/.git`, with what stands behind that.
git_path : Text → Text
git_path rest = codes "/workspace/.git" ++ rest

module _ (rest : Text) where
  refs_anchor-beside : mounts_over (git_path rest) (tmpfs refs_anchor) ≡ false
  unfolding mounts_over git_path covers
  refs_anchor-beside = refl

  venv_bind-Clean :
      (m : Machine) (c : SandboxConfig)
      → c.use_sandbox ≡ true
      → Clean (mounts_over (git_path rest)) (venv_bind m c)
  unfolding venv_bind mounts_over tool_root git_path covers
  venv_bind-Clean m c u =
      Clean-when (mounts_over (git_path rest))
        (uses_project_venv m c && ensure_mount_dir m (under c.workspace (codes ".venv"))) _
        (Clean-one (mounts_over (git_path rest))
          (bind (under (under m.cache_root (codes "venvs")) (m.venv_name c.workspace))
            (under (tool_root c.use_sandbox c.workspace) (codes ".venv")))
          (rw u refl))

  caches-Clean :
      (m : Machine) (c : SandboxConfig)
      → c.use_sandbox ≡ true
      → Clean (mounts_over (git_path rest)) (cache_binds_and_env m c)
  unfolding mounts_over git_path covers
  caches-Clean m c u =
      cache_binds_and_env-Clean (mounts_over (git_path rest)) m (λ var value. refl) (λ var. refl)
        (λ source name. refl) refl refl c (venv_bind-Clean m c u)

  ref_binds_from-Clean :
      (m : Machine) (c : SandboxConfig) (anchored : Bool) (refs : Refs)
      → c.use_sandbox ≡ true
      → shadowed (git_path rest) refs ≡ false
      → Clean (mounts_over (git_path rest)) (ref_binds_from m c anchored refs)
  unfolding ref_binds_from mounts_over shadowed ref_target tool_root
  ref_binds_from-Clean m c anchored [] u h = Clean-nil (mounts_over (git_path rest))
  ref_binds_from-Clean m c anchored ((alias, ref) ∷ refs) u h =
      let (may, more) =
        neither (may_cover (ref_target ref) (git_path rest)) (shadowed (git_path rest) refs) h in
      let one = not_covered (ref_target ref) (git_path rest) may in
      elim (Bool-cases (is_absolute ref.mount)) [
        | inl e ↦ rw e (
            Clean-when_append (mounts_over (git_path rest)) (not anchored) (tmpfs refs_anchor ∷ [])
              (bind_one (ref.read_only || c.read_only) ref.host ref.mount
                ∷ ref_binds_from m c true refs)
              (Clean-one (mounts_over (git_path rest)) (tmpfs refs_anchor) refs_anchor-beside)
              (Clean-cons (mounts_over (git_path rest)) _ _
                (bind_one-over (ref.read_only || c.read_only) ref.host ref.mount (git_path rest)
                  (ap (λ t. covers t (git_path rest)) (sym (target_absolute ref e)) ∙ one))
                (ref_binds_from-Clean m c true refs u more)))
        | inr e ↦ elim (Bool-cases (ensure_mount_dir m (under c.workspace ref.mount))) [
          | inl f ↦
              rw (e, f)
                (Clean-cons (mounts_over (git_path rest)) _ _
                  (bind_one-over (ref.read_only || c.read_only) ref.host
                    (under (tool_root c.use_sandbox c.workspace) ref.mount) (git_path rest)
                    (ap (λ t. covers t (git_path rest))
                        (target_in_workspace c ref u ∙ sym (target_relative ref e))
                      ∙ one))
                  (ref_binds_from-Clean m c anchored refs u more))
          | inr f ↦ rw (e, f) (ref_binds_from-Clean m c anchored refs u more)
        ]
      ]

  proxies-Clean :
      (m : Machine) (vars : List Text) → Clean (mounts_over (git_path rest)) (proxies m vars)
  unfolding proxies mounts_over
  proxies-Clean m [] = Clean-nil (mounts_over (git_path rest))
  proxies-Clean m (var ∷ vars) = elim (Option-cases (m.environ var)) [
    | inl e ↦ rw (proxies, e) (proxies-Clean m vars)
    | inr (value, e) ↦
        rw (proxies, e) (Clean-cons (mounts_over (git_path rest)) _ _ refl (proxies-Clean m vars))
  ]

  last_args-Clean :
      (m : Machine) (c : SandboxConfig) → Clean (mounts_over (git_path rest)) (last_args m c)
  unfolding last_args mounts_over
  last_args-Clean m c =
      Clean-append (mounts_over (git_path rest))
        (chdir workspace_anchor
          ∷ unshare_all
          ∷ new_session
          ∷ hostname (codes "sandbox")
          ∷ setenv (codes "LANG") (codes "C.UTF-8")
          ∷ setenv (codes "PYTHONUNBUFFERED") (codes "1")
          ∷ [])
        _ (record { clean = refl })
        (Clean-when_append (mounts_over (git_path rest)) c.allow_network _ _
          (Clean-append (mounts_over (git_path rest)) (proxies m proxy_vars) _
            (proxies-Clean m proxy_vars) (Clean-one (mounts_over (git_path rest)) share_net refl))
          (Clean-one (mounts_over (git_path rest)) die_with_parent refl))

  later-Clean :
      (m : Machine) (c : SandboxConfig)
      → c.use_sandbox ≡ true
      → shadowed (git_path rest) c.external_refs ≡ false
      → Clean
          (mounts_over (git_path rest))
          (cache_binds_and_env m c ++ (ref_binds m c ++ last_args m c))
  unfolding ref_binds
  later-Clean m c u h =
      Clean-append (mounts_over (git_path rest)) (cache_binds_and_env m c) _ (caches-Clean m c u) (
        Clean-append (mounts_over (git_path rest)) (ref_binds m c) (last_args m c)
          (ref_binds_from-Clean m c false c.external_refs u h) (last_args-Clean m c))

relative_to-git :
    (workspace : Text)
    → relative_to workspace (under workspace (codes ".git")) ≡ some (codes ".git")
unfolding relative_to
relative_to-git workspace =
    rw (relative_to, text_eq-longer workspace slash (codes ".git"))
      (ap (drop_prefix (under workspace []))
          (sym (append_assoc workspace (slash ∷ []) (codes ".git")))
        ∙ drop_prefix-append (under workspace []) (codes ".git"))

git_binds-inside :
    (c : SandboxConfig)
    → c.use_sandbox ≡ true
    → c.git_external ≡ false
    → c.git_dir ≡ some (under c.workspace (codes ".git"))
    → git_binds c ≡ ro_bind (under c.workspace (codes ".git")) (codes "/workspace/.git") ∷ []
unfolding git_binds tool_root
git_binds-inside c u x g = rw (git_binds, g, x, relative_to-git c.workspace, u) refl

covered :
    (path : Text)
    → covers (codes "/workspace/.git") path ≡ true
    → (rest : Text) × (path ≡ git_path rest)
unfolding covers git_path
covered path h = elim (Bool-cases (text_eq (codes "/workspace/.git") path)) [
  | inl e ↦ ([], sym (text_eq→≡ (codes "/workspace/.git") path e))
  | inr e ↦ elim (Option-cases (drop_prefix (under (codes "/workspace/.git") []) path)) [
    | inl f ↦ absurd (ground arith)
    | inr (rest, f) ↦
        (slash ∷ rest, drop_prefix-rest (under (codes "/workspace/.git") []) path rest f)
  ]
]

-- In every mode, at `/workspace/.git` and below it a sandbox shows the workspace's own repository,
-- read-only, whatever is filtered. No reference has a target that covers the path or that is not in
-- normal form.
pub sandbox_args-git_read_only :
    (m : Machine) (c : SandboxConfig) (path : Text)
    → c.use_sandbox ≡ true
    → c.git_external ≡ false
    → c.git_dir ≡ some (under c.workspace (codes ".git"))
    → covers (codes "/workspace/.git") path ≡ true
    → shadowed path c.external_refs ≡ false
    → seen path (sandbox_args m c)
      ≡ some (ro_bind (under c.workspace (codes ".git")) (codes "/workspace/.git"))
unfolding sandbox_args workspace_args seen mounts_over
sandbox_args-git_read_only m c path u x g h s =
    let (rest, e) = covered path h in
    let clean : any (mounts_over path) (cache_binds_and_env m c ++ (ref_binds m c ++ last_args m c))
        ≡ false =
      subst
        (λ p.
          any (mounts_over p) (cache_binds_and_env m c ++ (ref_binds m c ++ last_args m c)) ≡ false)
        (sym e) (later-Clean rest m c u (ap (λ p. shadowed p c.external_refs) (sym e) ∙ s)).clean in
    let git : seen path (git_binds c)
        ≡ some (ro_bind (under c.workspace (codes ".git")) (codes "/workspace/.git")) =
      rw (git_binds-inside c u x g, h) refl in
    seen-later path (base_args m c) _ _ (
      seen-earlier path (workspace_args m c) _ clean
      ∙ seen-later path
          (bind_one c.read_only c.workspace workspace_anchor
            ∷ filter_binds m c.workspace c.filter_list)
          _ _
          (seen-later path
            (when (m.is_file (under c.workspace (codes "uv.lock"))) (
              ro_bind (under c.workspace (codes "uv.lock"))
                (under workspace_anchor (codes "uv.lock"))
              ∷ []))
            (git_binds c) _ git))
