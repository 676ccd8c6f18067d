-- ===== src/Sandbox/Argv/Each.antt =====
-- No option of a list satisfies a test: how that follows for the lists that `build_argv`
-- (src/xarness/sandbox.py) puts together.
use xarness.Prelude.{
  ◌≡◌, refl, ◌∙◌, Bool, true, false, not, Option, none, some, List, [], ◌∷◌, ◌++◌, Text, codes, any,
  any-append,
}
use xarness.Prelude.Split.{join_on}
use xarness.Sandbox.Argv.{
  Arg, ro_bind, bind, setenv, unsetenv, Machine, SandboxConfig, under, cache_anchor,
}
use xarness.Sandbox.Argv.Binds.{
  when, pinned_python, cache_head, tool_dir, tool_home, venv_bind, path_entries,
  cache_binds_and_env,
}

module _ (bad : Arg → Bool) where
  -- No option of some is bad.
  pub record Clean (args : List Arg) : Type 0 where
    pub clean : any bad args ≡ false

  pub Clean-nil : Clean []
  Clean-nil = record { clean = refl }

  pub Clean-cons : (arg : Arg) (args : List Arg) → bad arg ≡ false → Clean args → Clean (arg ∷ args)
  Clean-cons arg args h k = record { clean = rw (h, k.clean) refl }

  pub Clean-append : (xs ys : List Arg) → Clean xs → Clean ys → Clean (xs ++ ys)
  Clean-append xs ys h k = record { clean = any-append bad xs ys ∙ rw (h.clean, k.clean) refl }

  pub Clean-when : (test : Bool) (args : List Arg) → Clean args → Clean (when test args)
  Clean-when true args h = h
  Clean-when false args h = Clean-nil

  pub Clean-when_append :
      (test : Bool) (args rest : List Arg)
      → Clean args
      → Clean rest
      → Clean (when test args ++ rest)
  Clean-when_append test args rest h k =
      Clean-append (when test args) rest (Clean-when test args h) k

  pub Clean-one : (arg : Arg) → bad arg ≡ false → Clean (arg ∷ [])
  Clean-one arg h = Clean-cons arg [] h Clean-nil

  -- The options that set the environment are not bad, nor are the mounts below the anchor of the
  -- caches, those of the caches of the host `m` among them.
  module _ (m : Machine) (env : (var value : Text) → bad (setenv var value) ≡ false)
      (unset : (var : Text) → bad (unsetenv var) ≡ false)
      (fixed : (source name : Text) → bad (ro_bind source (under cache_anchor name)) ≡ false)
      (cache : bad (bind m.cache_root cache_anchor) ≡ false)
      (uv : bad (bind (under m.home (codes ".cache/uv")) (under cache_anchor (codes "uv")))
        ≡ false) where
    pinned_python-Clean : (version : Option Text) → Clean (pinned_python version)
    pinned_python-Clean none = Clean-nil
    pinned_python-Clean (some []) = Clean-nil
    pinned_python-Clean (some (c ∷ cs)) = Clean-one _ (env (codes "UV_PYTHON") (c ∷ cs))

    cache_head-Clean : (name : Text) → Clean (cache_head m name)
    unfolding cache_head
    cache_head-Clean name = Clean-cons _ _ cache (
        Clean-cons _ _ (env _ _) (
          Clean-cons _ _ (env _ _) (
            Clean-cons _ _ (env _ _) (
              Clean-cons _ _ (env _ _) (
                Clean-cons _ _ (env _ _) (
                  Clean-cons _ _ (env _ _) (
                    Clean-cons _ _ uv (
                      Clean-cons _ _ (env _ _)
                        (Clean-cons _ _ (env _ _) (Clean-one _ (unset _)))))))))))

    tool_dir-Clean : (path name : Text) → Clean (tool_dir m path name)
    tool_dir-Clean path name =
        Clean-when (m.is_dir path) (ro_bind path (under cache_anchor name) ∷ [])
          (Clean-one _ (fixed path name))

    tool_home-Clean : (path name var : Text) → Clean (tool_home m path name var)
    tool_home-Clean path name var =
        Clean-when (m.is_dir path)
          (ro_bind path (under cache_anchor name) ∷ setenv var (under cache_anchor name) ∷ [])
          (Clean-cons _ _ (fixed path name) (Clean-one _ (env var (under cache_anchor name))))

    pub cache_binds_and_env-Clean :
        (c : SandboxConfig) → Clean (venv_bind m c) → Clean (cache_binds_and_env m c)
    unfolding cache_binds_and_env
    cache_binds_and_env-Clean c venv =
        Clean-append _ _ (cache_head-Clean (m.venv_name c.workspace)) (
          Clean-append _ _ (tool_home-Clean _ _ _) (
            Clean-append _ _ (pinned_python-Clean m.venv_python) (
              Clean-append _ _ venv (
                Clean-append _ _
                  (Clean-when (not c.allow_network) (setenv (codes "UV_OFFLINE") (codes "1") ∷ [])
                    (Clean-one _ (env _ _)))
                  (Clean-append _ _ (tool_home-Clean _ _ _) (
                    Clean-append _ _ (tool_dir-Clean _ _) (
                      Clean-append _ _ (tool_dir-Clean _ _) (
                        Clean-one (setenv (codes "PATH") (join_on 58 (path_entries m c.git_shim)))
                          (env _ _)))))))))
