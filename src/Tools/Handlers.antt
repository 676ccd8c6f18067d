-- ===== src/Tools/Handlers.antt =====
-- The handlers of src/xarness/tools.py that write, run and ask. `run` is a command in the sandbox,
-- on its argument list and what stands on its input; the world outside is a state that it changes.
pub mod Writes
use xarness.Prelude.{
  ℕ, ◌-◌, ◌+◌, Bool, true, false, not, ◌&&◌, ◌||◌, Option, none, some, List, [], ◌∷◌, ◌++◌, Text,
  codes, nonempty, length, take, ltb, eqb, is_some, if◌then◌else◌, filter, map, last?,
}
use xarness.Prelude.Decimal.{decimal}
use xarness.Prelude.Strip.{drop_prefix}
use xarness.Conversation.Message.{ToolResult, ok, error, parse_error}
use xarness.Sandbox.Paths.{is_refs_path, refs_anchor, tool_path, validate_relpath}
use xarness.Tools.Registry.{ok_result, error_result, bad, join_with}
use xarness.Tools.Edits.{EditSpec, RunResult, empty_old, Plan, finish, write, plan_edit, exec_error}
use xarness.Tools.Window.{newline, splitlines, splitlines_from}

-- `_check_path`
unfoldable pub check_path : Text → Option ToolResult
unfolding validate_relpath
check_path path = elim (validate_relpath path) [ none ↦ none | some message ↦ some (bad message) ]

-- `_check_write_path`
unfoldable pub check_write_path : Bool → Text → Option ToolResult
unfolding is_refs_path check_path
check_write_path use_sandbox path =
    if use_sandbox && is_refs_path path
    then some (error_result (codes "'" ++ (refs_anchor ++ codes "/' is read-only")))
    else check_path path

abbrev pub ends_with_newline : Text → Bool
ends_with_newline t = elim (last? t) [ none ↦ false | some c ↦ eqb c newline ]

abbrev pub strip_newlines : Text → Text
strip_newlines [] = []
strip_newlines (c ∷ cs) =
    let rest = strip_newlines cs in if eqb c newline && not (nonempty rest) then [] else c ∷ rest

abbrev pub max_edit_diff_lines : ℕ
max_edit_diff_lines = 400

abbrev pub cut_diff : List Text → List Text
cut_diff lines =
    if ltb max_edit_diff_lines (length lines)
    then take max_edit_diff_lines lines ++ codes "\n[... diff truncated at 400 lines]" ∷ []
    else lines

-- What `run_bash` makes of a command that ended.
unfoldable pub bash_result : Option ℕ → RunResult → ToolResult
bash_result timeout result =
    let label = elim timeout as (λ o. Text) [
      | none ↦ []
      | some n ↦ codes " after " ++ (decimal n ++ codes "s")
    ] in
    let output =
      if nonempty result.stdout && not (ends_with_newline result.stdout)
      then result.stdout ++ newline ∷ []
      else result.stdout in
    if result.timed_out
    then error_result (
        result.stdout
        ++ (codes "\n[command timed out"
            ++ (label
                ++ codes
                    " (shell restarted); the rest of the command did not run; the output above is what it printed before the timeout]")))
    else record {
      status = if eqb result.exit_code 0 then ok else error;
      content = output ++ (codes "[exit " ++ (decimal result.exit_code ++ codes "]"));
    }

-- `Q: {q}\nA: {a}`, for each question that has an answer.
abbrev pub answer_pairs : List Text → List Text → List Text
answer_pairs [] answers = []
answer_pairs (q ∷ questions) [] = []
answer_pairs (q ∷ questions) (a ∷ answers) =
    (codes "Q: " ++ (q ++ (codes "\nA: " ++ a))) ∷ answer_pairs questions answers

module _ (strip : Text → Text) {World : Type 0} where
  -- `run_bash`
  unfoldable pub run_bash :
      (Text → Option ℕ → World → RunResult × World) → Text → Option ℕ → World → ToolResult × World
  unfolding bash_result
  run_bash session_run command timeout world =
      let (result, after) = session_run command timeout world in
      if not (nonempty (strip command))
      then (bad (codes "'command' is required"), world)
      else (bash_result timeout result, after)

  -- `ask_user`
  unfoldable pub ask_user :
      (List Text → World → Option (List Text) × World) → List Text → World → ToolResult × World
  ask_user ask_callback raw world =
      let questions = filter nonempty (map strip raw) in
      let (answers, after) = ask_callback questions world in
      if not (nonempty questions)
      then (bad (codes "'questions' must be a non-empty list"), world)
      else elim answers [
        | none ↦ (ok_result (codes "(user skipped the questions — no answers given)"), after)
        | some given ↦ (ok_result (join_with (codes "\n\n") (answer_pairs questions given)), after)
      ]

-- Whether `edit_file` gets as far as the read.
abbrev pub wants_read : List EditSpec → Bool
wants_read edits = nonempty edits && not (is_some (empty_old 1 edits))

module _ (unified_diff : List Text → List Text → Text → Text → List Text) where
  -- `_format_edit_diff`
  unfoldable pub format_edit_diff : Text → Text → Text → Text
  unfolding splitlines_from
  format_edit_diff path before after =
      let lines =
        unified_diff (splitlines before) (splitlines after) (codes "a/" ++ path)
          (codes "b/" ++ path) in
      if not (nonempty lines)
      then codes "(no textual change)"
      else codes "diff --git a/"
        ++ (path
            ++ (codes " b/"
                ++ (path
                    ++ newline
                      ∷ (strip_newlines
                            (join_with (newline ∷ []) (map strip_newlines (cut_diff lines)))
                          ++ newline ∷ []))))

module _ (use_sandbox : Bool) (workspace : Text) where
  abbrev pub tee_existing : Text → List Text
  tee_existing path =
      codes "sh"
      ∷ codes "-c"
      ∷ codes
          "mkdir -p -- \"$(dirname -- \"$1\")\" && { if [ -e \"$1\" ]; then echo existing; else echo new; fi; tee -- \"$1\" >/dev/null; }"
      ∷ codes "write_file"
      ∷ tool_path use_sandbox workspace path
      ∷ []

  abbrev pub cat_command : Text → List Text
  cat_command path = codes "cat" ∷ codes "--" ∷ tool_path use_sandbox workspace path ∷ []

  abbrev pub tee_command : Text → List Text
  tee_command path =
      codes "sh"
      ∷ codes "-c"
      ∷ codes "tee -- \"$1\" >/dev/null"
      ∷ codes "edit_file"
      ∷ tool_path use_sandbox workspace path
      ∷ []

module _ (strip : Text → Text) (use_sandbox : Bool) (workspace : Text) {World : Type 0}
    (run : List Text → Text → World → RunResult × World) where
  -- `write_file`
  unfoldable pub write_file : (Text → ℕ) → Text → Text → World → ToolResult × World
  unfolding check_write_path tool_path
  write_file utf8_length path content world = elim (check_write_path use_sandbox path) [
    | some refused ↦ (refused, world)
    | none ↦
        let (result, after) = run (tee_existing use_sandbox workspace path) content world in
        let verb =
          if is_some (drop_prefix (codes "existing") result.stdout)
          then codes "overwrote "
          else codes "created " in
        if not (eqb result.exit_code 0)
        then (exec_error (strip result.stderr) (codes "write failed"), after)
        else (
          ok_result (
              verb ++ (path ++ (codes " (" ++ (decimal (utf8_length content) ++ codes " bytes)")))),
          after,
        )
  ]

  -- The end of `edit_file`, from the write on.
  unfoldable pub write_edited :
      (List Text → List Text → Text → Text → List Text)
      → Text
      → ℕ
      → Text
      → Text
      → World
      → ToolResult × World
  unfolding format_edit_diff tool_path
  write_edited unified_diff path edits current updated world =
      let (result, after) = run (tee_command use_sandbox workspace path) updated world in
      let plural = if eqb edits 1 then codes "edit" else decimal edits ++ codes " edits" in
      if not (eqb result.exit_code 0)
      then (exec_error (strip result.stderr) (codes "write failed"), after)
      else (
        ok_result (
            codes "applied "
            ++ (plural
                ++ (codes " to "
                    ++ (path ++ newline ∷ format_edit_diff unified_diff path current updated)))),
        after,
      )

  -- `edit_file`
  unfoldable pub edit_file :
      (List Text → List Text → Text → Text → List Text)
      → Text
      → List EditSpec
      → World
      → ToolResult × World
  unfolding check_write_path tool_path plan_edit write_edited
  edit_file unified_diff path edits world = elim (check_write_path use_sandbox path) [
    | some refused ↦ (refused, world)
    | none ↦
        let (found, after) = run (cat_command use_sandbox workspace path) [] world in
        elim (plan_edit strip found path edits) [
          | finish result ↦ (result, if wants_read edits then after else world)
          | write updated ↦ write_edited unified_diff path (length edits) found.stdout updated after
        ]
  ]
