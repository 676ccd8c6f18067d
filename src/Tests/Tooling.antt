-- ===== src/Tests/Tooling.antt =====
-- The theorems on tools.py and sandbox.py at concrete inputs.
use xarness.Prelude.{
  ℕ, ◌≤◌, ◌≡◌, ◌⊎◌, refl, true, false, none, some, List, [], ◌∷◌, ◌++◌, String, Text, codes, length,
  take, ◌+◌, arith, any, if◌then◌else◌,
}
use xarness.Prelude.Strip.{strip, text_eq}
use xarness.Sandbox.Paths.{
  slash, is_absolute, is_parent, parts, tool_root, tool_path, validate_relpath,
}
use xarness.Sandbox.Paths.Inside.{tool_path-inside}
use xarness.Tools.Edits.{EditSpec, not_unique, RunResult, apply_edits, failed}
use xarness.Tools.Edits.Batch.{Applies}
use xarness.Tools.Handlers.{cat_command, tee_command, edit_file}
use xarness.Tools.Handlers.Writes.{edit_file-writes}
use xarness.Tools.Registry.{
  Tool, ToolRegistry, Toolbox, Named, object, Parsed, parsed, valid, returned, ok_result,
  error_result, call, parse_arguments, build_registry,
}
use xarness.Tools.Registry.Offered.{call-length, call_writing-read_only}
use xarness.Tools.Window.{line_window, render, concat, newlines}
use xarness.Tools.Window.Fits.{none_fits, line_window_fits}

abbrev path : Text
path = codes "./src//main.py"

path-valid : validate_relpath path ≡ none
unfolding validate_relpath
path-valid = refl

tool_path-inside_example :
    (tool_path true (codes "/home/u/w") path ≡ tool_root true (codes "/home/u/w"))
    ⊎ ((below : Text) × (tool_path true (codes "/home/u/w") path
          ≡ tool_root true (codes "/home/u/w") ++ slash ∷ below)
        × (is_absolute below ≡ false)
        × (any is_parent (parts below) ≡ false))
tool_path-inside_example = tool_path-inside true (codes "/home/u/w") path path-valid

abbrev lines : List Text
lines = codes "first\n" ∷ codes "second\n" ∷ codes "third\n" ∷ []

line_window_fits_example :
    (kept : ℕ) × (more : ℕ) × (line_window lines 1 3 9 (some 60) ≡ render lines 1 3 9 kept)
    × (1 ≤ kept)
    × ((length (render lines 1 3 9 kept) ≤ 60) ⊎ (kept ≡ 1))
    × ((kept ≡ 3)
        ⊎ ((newlines (take 60 (concat lines)) ≤ kept + more)
            × (none_fits lines 1 3 9 60 kept more ≡ true)))
line_window_fits_example = line_window_fits lines 1 3 9 60 (omega arith)

abbrev swap : List EditSpec
swap =
    record { old_string = codes "b"; new_string = codes "a"; replace_all = false }
    ∷ record { old_string = codes "a"; new_string = codes "c"; replace_all = false }
    ∷ []

swap-fails : apply_edits (codes "a b") swap ≡ failed 2 (not_unique 2)
unfolding apply_edits
swap-fails = refl

-- A sandbox of one file: the read gives it back, and the write replaces it.
abbrev run : List Text → Text → Text → RunResult × Text
run [] input file = (record { exit_code = 1; stdout = []; stderr = []; timed_out = false }, file)
run (c ∷ cs) input file =
    if any (text_eq (codes "edit_file")) (c ∷ cs)
    then (record { exit_code = 0; stdout = []; stderr = []; timed_out = false }, input)
    else (record { exit_code = 0; stdout = file; stderr = []; timed_out = false }, file)

abbrev no_diff : List Text → List Text → Text → Text → List Text
no_diff before after from_file to_file = []

edit_file-writes_example :
    let after = (edit_file strip true (codes "/w") run no_diff (codes "f") swap (codes "b x")).1 in
    let found = run (cat_command true (codes "/w") (codes "f")) [] (codes "b x") in
    (after ≡ codes "b x")
    ⊎ (after ≡ found.1)
    ⊎ ((updated : Text) × Applies found.0.stdout swap updated
        × (after ≡ (run (tee_command true (codes "/w") (codes "f")) updated found.1).1))
edit_file-writes_example =
    edit_file-writes strip true (codes "/w") run no_diff (codes "f") swap (codes "b x")

-- A toolbox whose tools write their name's text into the world.
abbrev tool : String → Tool Text Text
tool name = record {
  name = name;
  Args = Text;
  model_validate = valid;
  handler = λ limit args world. (returned (ok_result args), codes name);
}

abbrev tools : Toolbox Text Text
tools = record {
  ask_user = tool "ask_user";
  read_file = tool "read_file";
  run_bash = tool "run_bash";
  write_file = tool "write_file";
  edit_file = tool "edit_file";
}

tools-Named : Named tools
tools-Named = record {
  ask_user = refl;
  read_file = refl;
  run_bash = refl;
  write_file = refl;
  edit_file = refl;
}

abbrev loads : Text → Parsed Text
loads t = parsed (object t)

call_writing-read_only_example :
    call loads [] strip
      (build_registry tools true true true true "plan")
      "write_file"
      (codes "x")
      []
    ≡ (error_result (codes "unknown tool '" ++ (codes "write_file" ++ codes "'")), [])
call_writing-read_only_example =
    call_writing-read_only loads [] strip tools true true true true "plan" "write_file" (codes "x")
      [] tools-Named refl refl

abbrev registry : ToolRegistry Text Text
registry = record { max_output_chars = 20; registered = ("run_bash", tool "run_bash") ∷ [] }

abbrev json : Text
json = codes "twenty-five characters ..."

json-parses : parse_arguments loads [] strip json ≡ parsed (object json)
unfolding parse_arguments strip
json-parses = refl

call-length_example : length (call loads [] strip registry "run_bash" json []).0.content ≤ 20
call-length_example =
    call-length loads [] strip registry "run_bash" json [] (tool "run_bash") json json refl
      json-parses refl
