-- ===== src/Sandbox/Argv.antt =====
-- The command line of bubblewrap: `SandboxConfig` and what its `build_argv` reads of the host
-- (src/xarness/sandbox.py). An option is a constructor, and `words` spells it. The tests on the
-- host's files, its environment and the paths made at run time are the fields of `Machine`; what
-- `_host_venv_python` finds is one of them. The cache of the prefix is not modelled.
pub mod Binds
pub mod Build
pub mod Each
pub mod GitGuard
pub mod PlanMode
pub mod Seen
use xarness.Prelude.{
  ℕ, Bool, true, false, not, ◌&&◌, ◌||◌, Option, none, some, List, [], ◌∷◌, ◌++◌, Text, codes,
  nonempty, is_some, any, if◌then◌else◌,
}
use xarness.Prelude.Strip.{text_eq, drop_prefix}
use xarness.Sandbox.Paths.{slash}
use xarness.Sandbox.Refs.{Refs}
use xarness.Config.Checks.{strip_slashes}

pub data Arg : Type 0 where
  clearenv unshare_all new_session share_net die_with_parent : Arg
  ro_bind bind dev_bind symlink setenv : Text → Text → Arg
  proc dev tmpfs unsetenv chdir hostname : Text → Arg

unfoldable pub words : Arg → List Text
words clearenv = codes "--clearenv" ∷ []
words unshare_all = codes "--unshare-all" ∷ []
words new_session = codes "--new-session" ∷ []
words share_net = codes "--share-net" ∷ []
words die_with_parent = codes "--die-with-parent" ∷ []
words (ro_bind source target) = codes "--ro-bind" ∷ source ∷ target ∷ []
words (bind source target) = codes "--bind" ∷ source ∷ target ∷ []
words (dev_bind source target) = codes "--dev-bind" ∷ source ∷ target ∷ []
words (symlink target link) = codes "--symlink" ∷ target ∷ link ∷ []
words (setenv var value) = codes "--setenv" ∷ var ∷ value ∷ []
words (proc target) = codes "--proc" ∷ target ∷ []
words (dev target) = codes "--dev" ∷ target ∷ []
words (tmpfs target) = codes "--tmpfs" ∷ target ∷ []
words (unsetenv var) = codes "--unsetenv" ∷ var ∷ []
words (chdir target) = codes "--chdir" ∷ target ∷ []
words (hostname name) = codes "--hostname" ∷ name ∷ []

unfoldable pub all_words : List Arg → List Text
unfolding words
all_words [] = []
all_words (arg ∷ args) = words arg ++ all_words args

pub record Machine : Type 0 where
  pub exists : Text → Bool
  pub is_dir : Text → Bool
  pub is_file : Text → Bool
  pub is_symlink : Text → Bool
  pub has_entries : Text → Bool
  pub can_make : Text → Bool
  pub readable : Text → Bool
  pub environ : Text → Option Text
  pub home : Text
  pub cache_root : Text
  pub etc_skeleton : Text
  pub empty_file : Text
  pub empty_dir : Text
  pub venv_name : Text → Text
  pub venv_python : Option Text
  pub gpu_nodes : List Text
  pub cap_nodes : List Text
  pub gpu_modules : List Text

pub record SandboxConfig : Type 0 where
  pub workspace : Text
  pub read_only : Bool
  pub external_refs : Refs
  pub allow_network : Bool
  pub gpu_access : Bool
  pub use_sandbox : Bool
  pub git_shim : Bool
  pub filter_list : List Text
  pub git_dir : Option Text
  pub git_external : Bool

-- `_WORKSPACE`, `CACHE_ANCHOR`, `EXTERNAL_GIT_ANCHOR` and `GIT_SHIM_DIR`
abbrev pub workspace_anchor : Text
workspace_anchor = codes "/workspace"

abbrev pub cache_anchor : Text
cache_anchor = codes "/cache"

abbrev pub external_git_anchor : Text
external_git_anchor = codes "/.xarness-snapshot-store"

abbrev pub git_shim_dir : Text
git_shim_dir = codes "git-shim"

-- `a / b`, and `f"{a}/{b}"`
abbrev pub under : Text → Text → Text
under a b = a ++ slash ∷ b

-- `_ensure_mount_dir`
unfoldable pub ensure_mount_dir : Machine → Text → Bool
ensure_mount_dir m path =
    if m.is_dir path
    then true
    else if m.exists path || m.is_symlink path
    then false
    else m.can_make path

-- `SandboxConfig.uses_project_venv`
abbrev pub project_venv_markers : List Text
project_venv_markers =
    codes "pyproject.toml"
    ∷ codes "uv.lock"
    ∷ codes "setup.py"
    ∷ codes "requirements.txt"
    ∷ codes "Pipfile"
    ∷ codes ".venv/pyvenv.cfg"
    ∷ []

unfoldable pub uses_project_venv : Machine → SandboxConfig → Bool
uses_project_venv m c =
    if any (λ rel. text_eq (strip_slashes rel) (codes ".venv")) c.filter_list
    then false
    else any (λ marker. m.exists (under c.workspace marker)) project_venv_markers

-- `set_mode` of `SandboxRuntime`: any mode but "write" is read-only.
unfoldable pub set_mode : Text → SandboxConfig → SandboxConfig
set_mode mode c = record c { read_only = not (text_eq mode (codes "write")) }

-- What a mount covers: its target and all below it.
unfoldable pub covers : Text → Text → Bool
covers target path = text_eq target path || is_some (drop_prefix (under target []) path)
