-- ===== src/Git/Conflict.antt =====
-- What `merge-tree` of git says of a merge, as src/xarness/gitwork.py reads it:
-- `_conflict_summary`, and the end of `_revert_turn_tree`.
use xarness.Prelude.{
  ℕ, ◌-◌, Bool, true, false, ◌&&◌, ◌||◌, Option, none, some, List, [], ◌∷◌, ◌++◌, Text, codes,
  nonempty, eqb, leb, ltb, length, take, if◌then◌else◌, any, map, filter, is_some,
}
use xarness.Prelude.Decimal.{decimal}
use xarness.Prelude.Strip.{strip, text_eq, drop_prefix}
use xarness.Tools.Registry.{join_with}
use xarness.Tools.Window.{text_lines}

-- What a git command gives back.
pub record GitResult : Type 0 where
  pub rc : ℕ
  pub out : Text
  pub err : Text

-- The rest of a text behind one or more characters of a class and one more character.
abbrev pub behind_run : (ℕ → Bool) → ℕ → Bool → Text → Option Text
behind_run in_class stop seen [] = none
behind_run in_class stop seen (c ∷ cs) =
    let longer = behind_run in_class stop true cs in
    if in_class c then longer else if seen && eqb c stop then some cs else none

abbrev pub is_digit : ℕ → Bool
is_digit c = leb 48 c && leb c 57

abbrev pub is_hex : ℕ → Bool
is_hex c = is_digit c || (leb 97 c && leb c 102)

-- `[123]\t(.+)`
abbrev pub behind_stage : Text → Option Text
behind_stage [] = none
behind_stage (c ∷ []) = none
behind_stage (c ∷ d ∷ []) = none
behind_stage (c ∷ d ∷ e ∷ path) =
    if leb 49 c && (leb c 51 && eqb d 9) then some (e ∷ path) else none

abbrev pub behind_hex : Option Text → Option Text
behind_hex none = none
behind_hex (some rest) = elim (behind_run is_hex 32 false rest) [
  | none ↦ none
  | some stage ↦ behind_stage stage
]

-- `_CONFLICT_STAGE_RE`: the path of a stage line.
unfoldable pub stage_path : Text → Option Text
stage_path line = behind_hex (behind_run is_digit 32 false line)

abbrev pub conflict_paths : List Text → List Text → List Text
conflict_paths paths [] = paths
conflict_paths paths (line ∷ lines) = elim (stage_path line) [
  | none ↦ conflict_paths paths lines
  | some path ↦
      conflict_paths (if any (text_eq path) paths then paths else paths ++ path ∷ []) lines
]

abbrev pub is_notice : Text → Bool
is_notice line = is_some (drop_prefix (codes "CONFLICT") line)

-- `_conflict_summary`
unfoldable pub conflict_summary : Text → Text
unfolding text_lines stage_path strip
conflict_summary out =
    let paths = conflict_paths [] (text_lines out) in
    let listed = join_with (codes ", ") (take 5 paths) in
    let more =
      if ltb 5 (length paths)
      then codes ", … (+" ++ (decimal (length paths - 5) ++ codes " more)")
      else [] in
    if nonempty paths
    then codes "conflicting files: " ++ (listed ++ more)
    else join_with (codes "; ") (map strip (filter is_notice (text_lines out)))

-- `a or b`
abbrev pub text_or : Text → Text → Text
text_or [] t = t
text_or (c ∷ cs) t = c ∷ cs

-- The ends of a merge that reverses a turn: its tree, a conflict, an error of git, or a turn without
-- the trees that git needs.
pub data Merged : Type 0 where
  result_tree : Text → Merged
  conflict : Text → Merged
  git_failed : Text → Merged
  no_tree : Merged

unfoldable pub read_merge : GitResult → Merged
unfolding conflict_summary text_lines strip
read_merge merge =
    if eqb merge.rc 0
    then elim (text_lines (strip merge.out)) [
      | [] ↦ git_failed (codes "merge produced no tree: " ++ strip merge.err)
      | tree ∷ rest ↦ result_tree tree
    ]
    else conflict
        (text_or (conflict_summary merge.out) (text_or (strip merge.err) (codes "merge conflict")))
