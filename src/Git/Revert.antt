-- ===== src/Git/Revert.antt =====
-- The revert of turns of src/xarness/gitwork.py: `revert_turns`, `revert_to_tree` and what they
-- call. git is a parameter: `merge-tree` on a base and two trees, `diff-tree`, and
-- `checkout-index` after a `read-tree`. The commits that wrap a tree for `merge-tree` are left out, and so is the check
-- of git's version.
pub mod Restore
pub mod Undo
use mathlib.Core.List.{reverse}
use xarness.Prelude.{
  ℕ, Bool, true, false, not, Option, none, some, List, [], ◌∷◌, ◌++◌, String, ◌==◌, Text, codes,
  nonempty, eqb, if◌then◌else◌, filter, is_some, take,
}
use xarness.Prelude.Strip.{strip, text_eq, drop_prefix}
use xarness.Conversation.Log.{TurnCheckpoint}
use xarness.Git.Changes.{Change, parse_status_z}
use xarness.Git.Conflict.{GitResult, Merged, result_tree, conflict, git_failed, no_tree, read_merge}

-- A workspace, or the files of a tree: what stands at a path.
abbrev pub Files : Type 0
Files = Text → Option Text

abbrev pub tree_eq : Option String → Option String → Bool
tree_eq none none = true
tree_eq none (some t) = false
tree_eq (some s) none = false
tree_eq (some s) (some t) = s == t

-- How a revert ends; `reverted` is the `None` of the source.
pub data Reverted : Type 0 where
  reverted : Reverted
  conflicted : Text → Reverted
  failed : Text → Reverted
  untracked : Reverted

abbrev pub is_deleted : Change → Bool
is_deleted change = is_some (drop_prefix (codes "D") change.0)

abbrev pub is_restored : Change → Bool
is_restored change = not (is_deleted change)

abbrev pub paths_of : List Change → List Text
paths_of [] = []
paths_of ((status, path) ∷ changes) = path ∷ paths_of changes

-- The first merge that is not clean ends the loop.
abbrev pub then_older : Merged → (Text → Merged) → Merged
then_older (result_tree tree) older = older tree
then_older (conflict message) older = conflict message
then_older (git_failed message) older = git_failed message
then_older no_tree older = no_tree

module _ (merge_tree : Text → Text → Text → GitResult) where
  -- `_revert_turn_tree`: the merge of the live tree with the tree before the turn, on the base of
  -- the tree after it.
  unfoldable pub revert_turn_tree : TurnCheckpoint → Text → Merged
  revert_turn_tree turn current =
      if tree_eq turn.before_tree turn.after_tree
      then result_tree current
      else elim turn.after_tree [
        | none ↦ no_tree
        | some base ↦ elim turn.before_tree [
          | none ↦ no_tree
          | some theirs ↦ read_merge (merge_tree (codes base) current (codes theirs))
        ]
      ]

  -- The loop of `revert_turns`, on the turns from the newest on.
  unfoldable pub revert_newest : List TurnCheckpoint → Text → Merged
  unfolding revert_turn_tree
  revert_newest [] current = result_tree current
  revert_newest (turn ∷ older) current =
      then_older (revert_turn_tree turn current) (revert_newest older)

module _ (diff_tree : Text → Text → GitResult) (unlink : Text → Files → Files)
    (checkout_index : Text → List Text → Files → GitResult × Files) where
  abbrev pub unlink_all : List Text → Files → Files
  unlink_all [] files = files
  unlink_all (path ∷ paths) files = unlink_all paths (unlink path files)

  -- `revert_to_tree` once it knows what differs: the deleted paths go, the others are written back.
  unfoldable pub apply_changes : Text → List Change → Files → Reverted × Files
  apply_changes tree changes files =
      let rest = unlink_all (paths_of (filter is_deleted changes)) files in
      let restore = paths_of (filter is_restored changes) in
      let (result, written) = checkout_index tree restore rest in
      if not (nonempty restore)
      then (reverted, rest)
      else if eqb result.rc 0
      then (reverted, written)
      else (
        failed (
            codes "could not restore checkpoint "
            ++ (take 8 tree ++ (codes ": " ++ strip result.err))),
        written,
      )

  -- `revert_to_tree`, with the tree of the workspace as it is.
  unfoldable pub revert_to_tree : Text → Text → Files → Reverted × Files
  unfolding apply_changes parse_status_z
  revert_to_tree tree current files =
      let diff = diff_tree current tree in
      if text_eq current tree
      then (reverted, files)
      else if eqb diff.rc 0
      then apply_changes tree (parse_status_z diff.out) files
      else (failed (codes "could not compare against the checkpoint: " ++ strip diff.err), files)

  module _ (merge_tree : Text → Text → Text → GitResult) (snapshot : Files → Text) where
    -- The end of `revert_turns`: a merge that is not clean leaves the files alone.
    unfoldable pub apply_merged : Merged → Text → Files → Reverted × Files
    unfolding revert_to_tree
    apply_merged (result_tree tree) original files =
        if text_eq tree original then (reverted, files) else revert_to_tree tree original files
    apply_merged (conflict message) original files = (conflicted message, files)
    apply_merged (git_failed message) original files = (failed message, files)
    apply_merged no_tree original files = (untracked, files)

    -- `revert_turns`
    unfoldable pub revert_turns : List TurnCheckpoint → Files → Reverted × Files
    unfolding revert_newest apply_merged
    revert_turns turns files =
        if not (nonempty turns)
        then (reverted, files)
        else apply_merged (revert_newest merge_tree (reverse turns) (snapshot files))
            (snapshot files) files
