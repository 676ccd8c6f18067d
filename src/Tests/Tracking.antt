-- ===== src/Tests/Tracking.antt =====
-- The theorems on gitwork.py at concrete inputs.
use xarness.Prelude.{
  ◌≡◌, refl, inl, inr, Bool, true, false, Option, none, some, List, [], ◌∷◌, ◌++◌, String, Text,
  codes, arith, any, if◌then◌else◌, map, Bool-cases,
}
use xarness.Prelude.Strip.{text_eq, strip}
use xarness.Tools.Window.{newline, text_lines}
use xarness.Conversation.Log.{TurnCheckpoint}
use xarness.Git.Changes.{nul, parse_status_z}
use xarness.Git.Changes.Printed.{
  StatusRow, changed, moved, print_status, change_of, IsStatus, parse_status_z-print_status,
}
use xarness.Git.Changes.Counted.{NumRow, counted, renamed, print_numstat}
use xarness.Git.Conflict.{GitResult}
use xarness.Git.Revert.{Files, reverted, conflicted, revert_turns}
use xarness.Git.Revert.Restore.{IsDiff, IsGit}
use xarness.Git.Revert.Undo.{Chain, no_turns, turn, revert_turns-Chain, revert_turns-untouched}
use xarness.Git.Stats.{Key, Cache, attributed_diff_stat}
use xarness.Git.Stats.Cached.{CacheFits, direct_attributed, attributed_diff_stat-direct}

abbrev rows : List StatusRow
rows = changed (codes "M") (codes " a b") ∷ moved (codes "R100") (codes "x") (codes "A") ∷ []

modified : IsStatus (codes "M") false
unfolding strip
modified = record { stripped = refl; filled = refl; paths = refl; whole = refl }

renames : IsStatus (codes "R100") true
unfolding strip
renames = record { stripped = refl; filled = refl; paths = refl; whole = refl }

parse_status_z-print_status_example : parse_status_z (print_status rows) ≡ map change_of rows
parse_status_z-print_status_example =
    parse_status_z-print_status rows ((modified, refl), ((renames, refl, refl), tt))

abbrev counts : List NumRow
counts =
    counted (some 12) (some 0) (codes "a\tb")
    ∷ counted none none (codes "p.dat")
    ∷ renamed (some 1) (some 2) (codes "old") (codes "new")
    ∷ []

-- A git of one tracked path.
abbrev at_path : Text → Bool
at_path q = text_eq q (codes "a")

abbrev trees : Text → Files
trees tree q = if at_path q then some tree else none

abbrev merge_tree : Text → Text → Text → GitResult
merge_tree base ours theirs = record {
  rc = if text_eq base ours then 0 else 1;
  out = theirs ++ newline ∷ [];
  err = [];
}

abbrev merge_cleanly : Text → Text → Text → GitResult
merge_cleanly base ours theirs = record { rc = 0; out = theirs ++ newline ∷ []; err = [] }

abbrev diff_tree : Text → Text → GitResult
diff_tree current tree = record {
  rc = 0;
  out = codes "M" ++ nul ∷ (codes "a" ++ nul ∷ []);
  err = [];
}

abbrev unlink : Text → Files → Files
unlink p files q = if text_eq q p then none else files q

abbrev checkout_index : Text → List Text → Files → GitResult × Files
checkout_index tree paths files = (
  record { rc = 0; out = []; err = [] },
  λ q. if any (text_eq q) paths then trees tree q else files q,
)

abbrev or_empty : Option Text → Text
or_empty none = []
or_empty (some t) = t

abbrev snapshot : Files → Text
snapshot files = or_empty (files (codes "a"))

diff_tree-IsDiff :
    (current tree : Text) → IsDiff (trees current) (trees tree) (diff_tree current tree)
unfolding parse_status_z
diff_tree-IsDiff current tree = record {
  succeeds = refl;
  deleted = λ q. inl refl;
  same = λ q. elim (Bool-cases (at_path q)) [
    | inl e ↦ inr (inl (rw e refl))
    | inr e ↦ inr (inr (rw e refl))
  ];
}

one_path-IsGit : IsGit trees merge_cleanly diff_tree unlink checkout_index
one_path-IsGit = record {
  merges = λ base theirs. refl;
  diffs = diff_tree-IsDiff;
  unlinks = λ p files q. refl;
  checks_out = λ tree paths files. refl;
  checked_out = λ tree paths files q. refl;
}

abbrev checkpoint : String → String → TurnCheckpoint
checkpoint before after = record {
  before_tree = some before;
  after_tree = some after;
  closed = true;
}

abbrev turns : List TurnCheckpoint
turns = checkpoint "b0" "b1" ∷ checkpoint "b1" "b2" ∷ []

turns-Chain : Chain "b0" turns "b2"
unfolding strip text_lines
turns-Chain = turn refl refl refl (turn refl refl refl no_turns)

abbrev live : Files
live = trees (codes "b2")

revert_turns-Chain_example :
    ((revert_turns diff_tree unlink checkout_index merge_cleanly snapshot turns live).0 ≡ reverted)
    × ((q : Text)
        → (revert_turns diff_tree unlink checkout_index merge_cleanly snapshot turns live).1 q
          ≡ trees (codes "b0") q)
revert_turns-Chain_example =
    revert_turns-Chain trees merge_cleanly diff_tree unlink checkout_index snapshot "b0" "b2" turns
      live one_path-IsGit turns-Chain refl (λ q. refl)

-- The older turn does not end where the newer one starts, so that its merge meets a conflict.
abbrev parted : List TurnCheckpoint
parted = checkpoint "b0" "x" ∷ checkpoint "b1" "b2" ∷ []

parted-conflicts :
    (revert_turns diff_tree unlink checkout_index merge_tree snapshot parted live).0
    ≡ conflicted (codes "merge conflict")
unfolding revert_turns strip text_lines xarness.Git.Conflict.read_merge
parted-conflicts = refl

revert_turns-untouched_example :
    (revert_turns diff_tree unlink checkout_index merge_tree snapshot parted live).1 ≡ live
revert_turns-untouched_example =
    revert_turns-untouched trees merge_tree diff_tree unlink checkout_index snapshot parted live
      (codes "merge conflict") parted-conflicts

abbrev numstat : Key → Option Text
numstat key = some (print_numstat counts)

abbrev printed_status : Key → Option Text
printed_status key = some (print_status rows)

abbrev cached : Cache
cached =
    (
      record { subtree = ""; base_tree = "b0"; other_tree = "b1" },
      (print_numstat counts, print_status rows),
    )
    ∷ []

cached-CacheFits : CacheFits numstat printed_status cached
cached-CacheFits = ((refl, refl, tt), omega arith)

attributed_diff_stat-direct_example :
    ((attributed_diff_stat numstat printed_status "" "b0" (("b0", "b1") ∷ []) "b1" "b2" cached).0
      ≡ direct_attributed numstat printed_status "" "b0" (("b0", "b1") ∷ []) "b1" "b2")
    × CacheFits numstat printed_status
        (attributed_diff_stat numstat printed_status "" "b0" (("b0", "b1") ∷ []) "b1" "b2" cached).1
attributed_diff_stat-direct_example =
    attributed_diff_stat-direct numstat printed_status "" "b0" (("b0", "b1") ∷ []) "b1" "b2" cached
      cached-CacheFits
