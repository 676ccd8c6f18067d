-- ===== src/Sandbox/Argv/Build.antt =====
-- `SandboxConfig.build_argv` of src/xarness/sandbox.py.
use xarness.Prelude.{not, Option, none, some, List, [], ◌∷◌, ◌++◌, Text, codes, if◌then◌else◌}
use xarness.Prelude.Strip.{text_eq, drop_prefix}
use xarness.Sandbox.Paths.{tool_root}
use xarness.Sandbox.Argv.{
  Arg, clearenv, unshare_all, new_session, share_net, die_with_parent, ro_bind, setenv, proc, dev,
  tmpfs, chdir, hostname, all_words, Machine, SandboxConfig, workspace_anchor, external_git_anchor,
  under,
}
use xarness.Sandbox.Argv.Binds.{
  when, bind_one, system_ro_binds, gpu_binds, filter_binds, cache_binds_and_env, ref_binds,
}

-- `path.relative_to(base)` of two resolved paths; none is the `ValueError`.
unfoldable pub relative_to : Text → Text → Option Text
relative_to base path =
    if text_eq base path then some (codes ".") else drop_prefix (under base []) path

abbrev pub bind_git : SandboxConfig → Text → Option Text → List Arg
bind_git c git_dir none = []
bind_git c git_dir (some rel) =
    ro_bind git_dir (under (tool_root c.use_sandbox c.workspace) rel) ∷ []

-- The mount of the repository.
unfoldable pub git_binds : SandboxConfig → List Arg
unfolding relative_to tool_root
git_binds c = elim c.git_dir [
  | none ↦ []
  | some git_dir ↦
      if c.git_external
      then ro_bind git_dir external_git_anchor
        ∷ setenv (codes "GIT_DIR") external_git_anchor
        ∷ setenv (codes "GIT_WORK_TREE") workspace_anchor
        ∷ []
      else bind_git c git_dir (relative_to c.workspace git_dir)
]

abbrev pub proxy_vars : List Text
proxy_vars =
    codes "http_proxy"
    ∷ codes "https_proxy"
    ∷ codes "no_proxy"
    ∷ codes "HTTP_PROXY"
    ∷ codes "HTTPS_PROXY"
    ∷ codes "NO_PROXY"
    ∷ []

abbrev pub proxy_env : Text → Option Text → List Arg
proxy_env var none = []
proxy_env var (some value) = setenv var value ∷ []

unfoldable pub proxies : Machine → List Text → List Arg
proxies m [] = []
proxies m (var ∷ vars) = proxy_env var (m.environ var) ++ proxies m vars

-- The options before the workspace's own mount.
unfoldable pub base_args : Machine → SandboxConfig → List Arg
unfolding system_ro_binds gpu_binds
base_args m c =
    clearenv
    ∷ (system_ro_binds m
        ++ (proc (codes "/proc")
            ∷ dev (codes "/dev")
            ∷ tmpfs (codes "/tmp")
            ∷ when c.gpu_access (gpu_binds m)))

-- The mounts of the workspace and over it, up to the repository.
unfoldable pub workspace_args : Machine → SandboxConfig → List Arg
unfolding filter_binds git_binds
workspace_args m c =
    let uv_lock = under c.workspace (codes "uv.lock") in
    bind_one c.read_only c.workspace workspace_anchor
    ∷ (filter_binds m c.workspace c.filter_list
        ++ (when (m.is_file uv_lock)
              (ro_bind uv_lock (under workspace_anchor (codes "uv.lock")) ∷ [])
            ++ git_binds c))

unfoldable pub last_args : Machine → SandboxConfig → List Arg
unfolding proxies
last_args m c =
    chdir workspace_anchor
    ∷ unshare_all
    ∷ new_session
    ∷ hostname (codes "sandbox")
    ∷ setenv (codes "LANG") (codes "C.UTF-8")
    ∷ setenv (codes "PYTHONUNBUFFERED") (codes "1")
    ∷ (when c.allow_network (proxies m proxy_vars ++ share_net ∷ []) ++ die_with_parent ∷ [])

-- The options, in their order.
unfoldable pub sandbox_args : Machine → SandboxConfig → List Arg
unfolding base_args workspace_args cache_binds_and_env ref_binds last_args
sandbox_args m c =
    base_args m c
    ++ (workspace_args m c ++ (cache_binds_and_env m c ++ (ref_binds m c ++ last_args m c)))

-- `build_argv`
unfoldable pub build_argv : Machine → SandboxConfig → List Text → List Text
unfolding sandbox_args all_words
build_argv m c command =
    if not c.use_sandbox
    then command
    else codes "bwrap" ∷ (all_words (sandbox_args m c) ++ codes "--" ∷ command)
