-- ===== src/Tests/Sandboxing.antt =====
-- The theorems on sandbox.py at concrete inputs.
use xarness.Prelude.{
  ◌≡◌, refl, true, false, none, some, List, [], ◌∷◌, ◌++◌, Text, codes, any, arith,
}
use xarness.Prelude.Strip.{text_eq}
use xarness.Prelude.Decimal.{decimal}
use xarness.Prelude.Decimal.{decimal}
use xarness.Config.{RefSpec}
use xarness.Sandbox.Capture.{run, captured, keep_all, empty_capture, find, elided, pos, join_lines}
use xarness.Sandbox.Capture.Kept.{captured_lem, taken, left, shown}
use xarness.Sandbox.Capture.Marker.{report, run-reports}
use xarness.Sandbox.Refs.{Refs, ref_mount, resolve_auto_refs}
use xarness.Sandbox.Refs.Mounts.{all_placed, resolve_auto_refs-placed}
use xarness.Sandbox.Argv.{ro_bind, covers, Machine, SandboxConfig}
use xarness.Sandbox.Argv.Build.{sandbox_args}
use xarness.Sandbox.Argv.PlanMode.{exposed, sandbox_args-plan_mode}
use xarness.Sandbox.Argv.GitGuard.{sandbox_args-git_read_only}
use xarness.Sandbox.Argv.Seen.{seen, shadowed}

-- Lines of three, seven and two characters under a head of eight and a tail of four: the second line
-- goes beyond the head and the third one before it, and nothing is kept of the tail.
abbrev lines : List Text
lines = codes "ab\n" ∷ codes "cdefgh\n" ∷ codes "i\n" ∷ []

captured_lem_example :
    captured (keep_all 8 4 lines empty_capture) ≡ shown 4 (taken 8 0 lines) (left 8 0 lines)
captured_lem_example = captured_lem 8 4 lines

captured_run : captured (keep_all 8 4 lines empty_capture) ≡ codes "ab\ni\n" ++ elided 7
unfolding captured keep_all decimal
captured_run = refl

-- Two lines that fit the tail alone and not together: none is kept.
captured_no_tail : captured (keep_all 2 4 (codes "abc" ∷ codes "def" ∷ []) empty_capture) ≡ elided 6
unfolding captured keep_all decimal
captured_no_tail = refl

abbrev end_marker : Text
end_marker = codes "__xarness_done_1__"

run-reports_example :
    run end_marker ((codes "one\n" ∷ []) ++ (codes "two" ++ (end_marker ++ report 3)) ∷ [])
    ≡ record { exit_code = pos 3; stdout = codes "one\ntwo"; stderr = []; timed_out = false }
unfolding find decimal xarness.Sandbox.Capture.Kept.size
run-reports_example =
    run-reports end_marker (codes "one\n" ∷ []) (codes "two") 3 [] refl refl (omega arith)

abbrev specs : List RefSpec
specs =
    record { path = codes "/data/docs"; mount = none; read_only = true }
    ∷ record { path = codes "/data/venv"; mount = some (codes ".venv"); read_only = false }
    ∷ []

abbrev found : Refs
found =
    (
      codes "docs",
      record { host = codes "/data/docs"; mount = codes "/tmp/refs/docs"; read_only = true },
    )
    ∷ (codes "venv", record { host = codes "/data/venv"; mount = codes ".venv"; read_only = false })
    ∷ []

resolve_auto_refs-placed_example : all_placed found ≡ true
unfolding resolve_auto_refs all_placed
resolve_auto_refs-placed_example =
    resolve_auto_refs-placed (λ path. path) (λ path. true) specs [] found refl refl

-- A mount that names the repository in another way is let through.
ref_mount-dotted : ref_mount (codes "x") (some (codes "./.git")) ≡ some (codes "./.git")
unfolding ref_mount
ref_mount-dotted = refl

-- A host with a project that has a lock file and a repository.
abbrev machine : Machine
machine = record {
  exists = λ path. text_eq path (codes "/w/uv.lock");
  is_dir = λ path. text_eq path (codes "/w/.venv");
  is_file = λ path. text_eq path (codes "/w/uv.lock");
  is_symlink = λ path. false;
  has_entries = λ path. false;
  can_make = λ path. true;
  readable = λ path. true;
  environ = λ var. none;
  home = codes "/home/u";
  cache_root = codes "/home/u/.sandbox-cache";
  etc_skeleton = codes "/tmp/xarness-etc-1";
  empty_file = codes "/tmp/xarness-shadow-1/f";
  empty_dir = codes "/tmp/xarness-shadow-1/d";
  venv_name = λ path. codes "0123456789ab";
  venv_python = none;
  gpu_nodes = [];
  cap_nodes = [];
  gpu_modules = [];
}

abbrev config : SandboxConfig
config = record {
  workspace = codes "/w";
  read_only = true;
  external_refs = found;
  allow_network = true;
  gpu_access = true;
  use_sandbox = true;
  git_shim = true;
  filter_list = codes "uv.lock" ∷ [];
  git_dir = some (codes "/w/.git");
  git_external = false;
}

sandbox_args-plan_mode_example : any (exposed machine config) (sandbox_args machine config) ≡ false
sandbox_args-plan_mode_example = sandbox_args-plan_mode machine config refl refl

abbrev write_config : SandboxConfig
write_config = record config { read_only = false }

sandbox_args-git_read_only_example :
    seen (codes "/workspace/.git/index") (sandbox_args machine write_config)
    ≡ some (ro_bind (codes "/w/.git") (codes "/workspace/.git"))
unfolding covers shadowed
sandbox_args-git_read_only_example =
    sandbox_args-git_read_only machine write_config (codes "/workspace/.git/index") refl refl refl
      refl refl

-- A filtered lock file is mounted again behind the mount that hides it.
uv_lock_shown :
    seen (codes "/workspace/uv.lock") (sandbox_args machine write_config)
    ≡ some (ro_bind (codes "/w/uv.lock") (codes "/workspace/uv.lock"))
unfolding seen sandbox_args
uv_lock_shown = refl
