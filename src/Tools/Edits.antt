-- ===== src/Tools/Edits.antt =====
-- `_apply_edits` and `edit_file` of src/xarness/tools.py. The scan of `str.count` and `str.replace`
-- goes from left to right, and takes no occurrence that overlaps the last one. An `old_string` is
-- never empty there: `edit_file` refuses such an edit before.
pub mod Replace
pub mod Batch
use xarness.Prelude.{
  ℕ, zero, suc, ◌+◌, ◌-◌, Bool, true, false, not, ◌&&◌, ◌||◌, Option, none, some, List, [], ◌∷◌,
  ◌++◌, String, Text, codes, nonempty, length, contains_code, ltb, eqb, is_some, if◌then◌else◌,
}
use xarness.Prelude.Decimal.{decimal}
use xarness.Prelude.Strip.{drop_prefix}
use xarness.Conversation.Message.{ToolResult, ok, error, parse_error}

-- `EditSpec`
pub record EditSpec : Type 0 where
  pub old_string : Text
  pub new_string : Text
  pub replace_all : Bool

abbrev pub starts_with : Text → Text → Bool
starts_with t old = is_some (drop_prefix old t)

-- `t.count(old)`, where `skip` characters still belong to the last occurrence.
unfoldable pub count_from : Text → ℕ → Text → ℕ
count_from old skip [] = 0
count_from old (suc k) (c ∷ cs) = count_from old k cs
count_from old zero (c ∷ cs) = elim (starts_with (c ∷ cs) old) [
  | true ↦ suc (count_from old (length old - 1) cs)
  | false ↦ count_from old zero cs
]

abbrev pub count : Text → Text → ℕ
count t old = count_from old 0 t

-- `t.replace(old, new, n)`, likewise.
unfoldable pub replace_from : Text → Text → ℕ → ℕ → Text → Text
replace_from old new n skip [] = []
replace_from old new n (suc k) (c ∷ cs) = replace_from old new n k cs
replace_from old new n zero (c ∷ cs) = elim (ltb 0 n && starts_with (c ∷ cs) old) [
  | true ↦ new ++ replace_from old new (n - 1) (length old - 1) cs
  | false ↦ c ∷ replace_from old new n zero cs
]

abbrev pub replace : Text → Text → Text → ℕ → Text
replace t old new n = replace_from old new n 0 t

-- Why an edit does not apply.
pub data EditFailure : Type 0 where
  not_found : EditFailure
  not_unique : ℕ → EditFailure

pub data Edited : Type 0 where
  edited : Text → Edited
  failed : ℕ → EditFailure → Edited

-- The body of the loop of `_apply_edits`.
unfoldable pub apply_edit : EditSpec → Text → Option EditFailure × Text
unfolding count_from replace_from
apply_edit edit updated =
    let occurrences = count updated edit.old_string in
    if eqb occurrences 0
    then (some not_found, updated)
    else if ltb 1 occurrences && not edit.replace_all
    then (some (not_unique occurrences), updated)
    else (
      none,
      replace updated edit.old_string edit.new_string (if edit.replace_all then occurrences else 1),
    )

-- The loop, from the edit with number `index` on.
unfoldable pub apply_from : ℕ → List EditSpec → Text → Edited
unfolding apply_edit
apply_from index [] updated = edited updated
apply_from index (edit ∷ edits) updated =
    let (failure, updated') = apply_edit edit updated in
    let later = apply_from (suc index) edits updated' in
    elim failure [ none ↦ later | some f ↦ failed index f ]

-- `_apply_edits`
unfoldable pub apply_edits : Text → List EditSpec → Edited
unfolding apply_from
apply_edits current edits = apply_from 1 edits current

-- The message of an `_EditError`.
unfoldable pub edit_message : ℕ → ℕ → EditFailure → Text
edit_message total index failure =
    let place = if ltb 1 total then codes "edit " ++ decimal index else codes "old_string" in
    place ++ elim failure [
      | not_found ↦ codes ": old_string not found in file"
      | not_unique n ↦
          codes ": old_string is not unique ("
          ++ (decimal n ++ codes " matches); include more surrounding context, or set replace_all")
    ]

-- What a command in the sandbox gives back.
pub record RunResult : Type 0 where
  pub exit_code : ℕ
  pub stdout : Text
  pub stderr : Text
  pub timed_out : Bool

-- The first edit with an empty `old_string`, counting from `index`.
unfoldable pub empty_old : ℕ → List EditSpec → Option ℕ
empty_old index [] = none
empty_old index (edit ∷ edits) =
    let rest = empty_old (suc index) edits in if nonempty edit.old_string then rest else some index

-- What `edit_file` does after it has read the file: a result, or the text to write.
pub data Plan : Type 0 where
  finish : ToolResult → Plan
  write : Text → Plan

-- The replacement character of a text that was not valid UTF-8.
abbrev pub replacement : ℕ
replacement = 65533

-- `_exec_error`, with the stripped text of the error stream.
abbrev pub exec_error : Text → Text → ToolResult
exec_error stripped fallback = record {
  status = error;
  content = if nonempty stripped then stripped else fallback;
}

module _ (strip : Text → Text) (read : RunResult) where
  -- `edit_file` between its checks of the path and the write, on what `cat` gave back.
  unfoldable pub plan_edit : Text → List EditSpec → Plan
  unfolding empty_old apply_edits edit_message
  plan_edit path [] =
      finish (record { status = parse_error; content = codes "'edits' must be a non-empty list" })
  plan_edit path (edit ∷ edits) = elim (empty_old 1 (edit ∷ edits)) [
    | some index ↦ finish (record {
      status = parse_error;
      content = codes "edit " ++ (decimal index ++ codes " needs a non-empty 'old_string'");
    })
    | none ↦
        if not (eqb read.exit_code 0)
        then finish (exec_error (strip read.stderr) (codes "read failed"))
        else if contains_code replacement read.stdout
        then finish (record {
          status = error;
          content = path ++ codes " is not valid UTF-8; edit it with run_bash instead";
        })
        else elim (apply_edits read.stdout (edit ∷ edits)) [
          | edited updated ↦ write updated
          | failed index failure ↦ finish (record {
            status = error;
            content = edit_message (length (edit ∷ edits)) index failure;
          })
        ]
  ]
