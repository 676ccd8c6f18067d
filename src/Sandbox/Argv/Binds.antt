-- ===== src/Sandbox/Argv/Binds.antt =====
-- The groups of mounts that `build_argv` puts together: `_system_ro_binds`, `_gpu_binds`,
-- `_caps_unusable`, `_filter_binds`, `_cache_binds_and_env` and `_ref_binds` of
-- src/xarness/sandbox.py.
use xarness.Prelude.{
  Bool, true, false, not, ◌&&◌, ◌||◌, Option, none, some, List, [], ◌∷◌, ◌++◌, Text, codes,
  nonempty, any, if◌then◌else◌,
}
use xarness.Prelude.Split.{join_on}
use xarness.Sandbox.Paths.{is_absolute, refs_anchor, tool_root}
use xarness.Sandbox.Refs.{Refs}
use xarness.Config.Checks.{strip_slashes}
use xarness.Sandbox.Argv.{
  Arg, ro_bind, bind, dev_bind, symlink, setenv, tmpfs, unsetenv, Machine, SandboxConfig,
  workspace_anchor, cache_anchor, git_shim_dir, under, ensure_mount_dir, uses_project_venv,
}

-- `if test: args += [...]`
abbrev pub when : Bool → List Arg → List Arg
when test args = if test then args else []

-- `for path in paths: if p.exists(): args += ["--ro-bind", str(p), str(p)]`
unfoldable pub bind_existing : Machine → List Text → List Arg
bind_existing m [] = []
bind_existing m (path ∷ paths) =
    when (m.exists path) (ro_bind path path ∷ []) ++ bind_existing m paths

-- One of the links `/bin`, `/lib`, `/lib64` and `/sbin`.
abbrev pub bind_link : Machine → Text → Text → List Arg
bind_link m link target =
    if m.is_symlink link
    then symlink target link ∷ []
    else when (m.is_dir link) (ro_bind link link ∷ [])

abbrev pub system_paths : List Text
system_paths = codes "/usr" ∷ codes "/etc/ssl" ∷ codes "/etc/pki" ∷ codes "/etc/alternatives" ∷ []

-- `_system_ro_binds`
unfoldable pub system_ro_binds : Machine → List Arg
unfolding bind_existing
system_ro_binds m =
    ro_bind m.etc_skeleton (codes "/etc")
    ∷ (when (m.exists (codes "/etc/resolv.conf"))
          (ro_bind (codes "/etc/resolv.conf") (codes "/etc/resolv.conf") ∷ [])
        ++ (bind_existing m system_paths
            ++ (bind_link m (codes "/bin") (codes "usr/bin")
                ++ (bind_link m (codes "/lib") (codes "usr/lib")
                    ++ (bind_link m (codes "/lib64") (codes "usr/lib64")
                        ++ bind_link m (codes "/sbin") (codes "usr/sbin"))))))

-- The loop over the device nodes.
unfoldable pub bind_devices : Machine → List Text → List Arg
bind_devices m [] = []
bind_devices m (node ∷ nodes) =
    when (if m.is_dir node then m.has_entries node else m.exists node) (dev_bind node node ∷ [])
    ++ bind_devices m nodes

unfoldable pub bind_modules : Machine → List Text → List Arg
bind_modules m [] = []
bind_modules m (path ∷ paths) =
    when (m.is_dir path) (ro_bind path path ∷ []) ++ bind_modules m paths

-- `_caps_unusable`
unfoldable pub caps_unusable : Machine → Bool
caps_unusable m =
    m.exists (codes "/proc/driver/nvidia/capabilities/mig/config")
    && (not (nonempty m.cap_nodes) || any (λ node. not (m.readable node)) m.cap_nodes)

abbrev pub gpu_devices : List Text
gpu_devices =
    codes "/dev/dri"
    ∷ codes "/dev/kfd"
    ∷ codes "/dev/nvidiactl"
    ∷ codes "/dev/nvidia-uvm"
    ∷ codes "/dev/nvidia-uvm-tools"
    ∷ codes "/dev/nvidia-modeset"
    ∷ codes "/dev/nvidia-caps"
    ∷ []

abbrev pub driver_paths : List Text
driver_paths =
    codes "/proc/driver/nvidia"
    ∷ codes "/sys/bus/pci"
    ∷ codes "/sys/class/drm"
    ∷ codes "/sys/devices"
    ∷ []

-- `_gpu_binds`
unfoldable pub gpu_binds : Machine → List Arg
unfolding bind_devices bind_modules bind_existing caps_unusable
gpu_binds m =
    bind_devices m (gpu_devices ++ m.gpu_nodes)
    ++ (bind_existing m driver_paths
        ++ (bind_modules m m.gpu_modules
            ++ when (caps_unusable m)
                (bind m.empty_dir (codes "/proc/driver/nvidia/capabilities") ∷ [])))

-- `_filter_binds`
unfoldable pub filter_binds : Machine → Text → List Text → List Arg
filter_binds m workspace [] = []
filter_binds m workspace (rel ∷ rels) =
    let path = under workspace (strip_slashes rel) in
    let target = under workspace_anchor (strip_slashes rel) in
    when (m.exists path) (ro_bind (if m.is_dir path then m.empty_dir else m.empty_file) target ∷ [])
    ++ filter_binds m workspace rels

abbrev pub pinned_python : Option Text → List Arg
pinned_python none = []
pinned_python (some version) =
    if nonempty version then setenv (codes "UV_PYTHON") version ∷ [] else []

-- The entries of `PATH`.
unfoldable pub path_entries : Machine → Bool → List Text
path_entries m git_shim =
    let anchored = under cache_anchor in
    (if git_shim then anchored git_shim_dir ∷ [] else [])
    ++ ((if m.is_dir (under m.home (codes ".cargo/bin"))
          then anchored (codes "cargo-bin") ∷ []
          else [])
        ++ ((if m.is_dir (under m.home (codes ".local/bin"))
              then anchored (codes "local-bin") ∷ []
              else [])
            ++ codes "/usr/local/bin" ∷ codes "/usr/bin" ∷ codes "/bin" ∷ []))

-- The mounts and the environment of the caches, up to the project's venv.
unfoldable pub cache_head : Machine → Text → List Arg
cache_head m venv_name =
    let anchored = under cache_anchor in
    bind m.cache_root cache_anchor
    ∷ setenv (codes "PIP_CACHE_DIR") (anchored (codes "pip"))
    ∷ setenv (codes "CARGO_HOME") (anchored (codes "cargo"))
    ∷ setenv (codes "npm_config_cache") (anchored (codes "npm"))
    ∷ setenv (codes "CARGO_TARGET_DIR") (codes "/workspace/target-sandbox")
    ∷ setenv (codes "UV_LINK_MODE") (codes "copy")
    ∷ setenv (codes "HOME") (codes "/tmp")
    ∷ bind (under m.home (codes ".cache/uv")) (anchored (codes "uv"))
    ∷ setenv (codes "UV_CACHE_DIR") (anchored (codes "uv"))
    ∷ setenv (codes "UV_PROJECT_ENVIRONMENT") (under (anchored (codes "venvs")) venv_name)
    ∷ unsetenv (codes "VIRTUAL_ENV")
    ∷ []

-- A directory of tools, read-only under the anchor, and one with a variable that names it.
abbrev pub tool_dir : Machine → Text → Text → List Arg
tool_dir m path name = when (m.is_dir path) (ro_bind path (under cache_anchor name) ∷ [])

abbrev pub tool_home : Machine → Text → Text → Text → List Arg
tool_home m path name var =
    when (m.is_dir path)
      (ro_bind path (under cache_anchor name) ∷ setenv var (under cache_anchor name) ∷ [])

-- The project's venv, over that of the workspace; writable in plan mode too.
unfoldable pub venv_bind : Machine → SandboxConfig → List Arg
unfolding uses_project_venv ensure_mount_dir tool_root
venv_bind m c =
    when (uses_project_venv m c && ensure_mount_dir m (under c.workspace (codes ".venv"))) (
      bind (under (under m.cache_root (codes "venvs")) (m.venv_name c.workspace))
        (under (tool_root c.use_sandbox c.workspace) (codes ".venv"))
      ∷ [])

abbrev pub offline : SandboxConfig → List Arg
offline c = when (not c.allow_network) (setenv (codes "UV_OFFLINE") (codes "1") ∷ [])

-- `_cache_binds_and_env`
unfoldable pub cache_binds_and_env : Machine → SandboxConfig → List Arg
unfolding cache_head path_entries venv_bind
cache_binds_and_env m c =
    cache_head m (m.venv_name c.workspace)
    ++ (tool_home m (under m.home (codes ".local/share/uv/python")) (codes "uv-python")
          (codes "UV_PYTHON_INSTALL_DIR")
        ++ (pinned_python m.venv_python
            ++ (venv_bind m c
                ++ (offline c
                    ++ (tool_home m (under m.home (codes ".rustup")) (codes "rustup")
                          (codes "RUSTUP_HOME")
                        ++ (tool_dir m (under m.home (codes ".cargo/bin")) (codes "cargo-bin")
                            ++ (tool_dir m (under m.home (codes ".local/bin")) (codes "local-bin")
                                ++ setenv (codes "PATH") (join_on 58 (path_entries m c.git_shim))
                                  ∷ [])))))))

-- The mount of one reference: read-only if it says so, and always in plan mode.
abbrev pub bind_one : Bool → Text → Text → Arg
bind_one read_only source target = if read_only then ro_bind source target else bind source target

-- `_ref_binds`; `anchored` says whether the anchor of the references is mounted.
unfoldable pub ref_binds_from : Machine → SandboxConfig → Bool → Refs → List Arg
unfolding ensure_mount_dir tool_root
ref_binds_from m c anchored [] = []
ref_binds_from m c anchored ((alias, ref) ∷ refs) =
    let below = ref_binds_from m c true refs in
    let beside = ref_binds_from m c anchored refs in
    let read_only = ref.read_only || c.read_only in
    if is_absolute ref.mount
    then when (not anchored) (tmpfs refs_anchor ∷ [])
      ++ bind_one read_only ref.host ref.mount ∷ below
    else if not (ensure_mount_dir m (under c.workspace ref.mount))
    then beside
    else bind_one read_only ref.host (under (tool_root c.use_sandbox c.workspace) ref.mount)
      ∷ beside

unfoldable pub ref_binds : Machine → SandboxConfig → List Arg
unfolding ref_binds_from
ref_binds m c = ref_binds_from m c false c.external_refs
