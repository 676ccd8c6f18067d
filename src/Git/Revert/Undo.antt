-- ===== src/Git/Revert/Undo.antt =====
-- What a revert of turns of src/xarness/gitwork.py does to the workspace, from what git documents of
-- its commands.
use mathlib.Core.List.{reverse, reverse-cons}
use xarness.Prelude.Strip.{text_eq→≡}
use xarness.Prelude.{
  ◌≡◌, refl, sym, ap, ◌∙◌, inl, inr, some, List, [], ◌∷◌, ◌++◌, String, ◌==◌, eq_iff, Text, codes,
  Bool-cases, arith,
}
use xarness.Prelude.Strip.{strip, text_eq}
use xarness.Git.Revert.Restore.{IsGit, revert_to_tree-files, revert_to_tree-no_conflict}
use xarness.Tools.Window.{text_lines, newline}
use xarness.Conversation.Log.{TurnCheckpoint}
use xarness.Git.Conflict.{GitResult, Merged, result_tree, conflict, git_failed, no_tree, read_merge}
use xarness.Git.Revert.{
  then_older, Files, reverted, conflicted, revert_turn_tree, revert_newest, apply_merged,
  revert_turns,
}

-- Turns of which each one starts at the tree at which the one before it ended, from a first tree to
-- a last one. A tree's id has no blank in it.
pub data Chain : String → List TurnCheckpoint → String → Type 0 where
  no_turns : {tree : String} → Chain tree [] tree
  turn :
      {first after last : String} {checkpoint : TurnCheckpoint} {turns : List TurnCheckpoint}
      → checkpoint.before_tree ≡ some first
      → checkpoint.after_tree ≡ some after
      → text_lines (strip (codes first ++ newline ∷ [])) ≡ codes first ∷ []
      → Chain after turns last
      → Chain first (checkpoint ∷ turns) last

then_older-result :
    (merged : Merged) (older : Text → Merged) (tree : Text)
    → then_older merged older ≡ result_tree tree
    → (next : Text) × (merged ≡ result_tree next) × (older next ≡ result_tree tree)
then_older-result (result_tree t) older tree h = (t, refl, h)
then_older-result (conflict message) older tree h = absurd (ground arith)
then_older-result (git_failed message) older tree h = absurd (ground arith)
then_older-result no_tree older tree h = absurd (ground arith)

-- One more turn behind the others.
revert_newest-append :
    (merge_tree : Text → Text → Text → GitResult) (turns : List TurnCheckpoint)
    (checkpoint : TurnCheckpoint) (current tree tree' : Text)
    → revert_newest merge_tree turns current ≡ result_tree tree
    → revert_turn_tree merge_tree checkpoint tree ≡ result_tree tree'
    → revert_newest merge_tree (turns ++ checkpoint ∷ []) current ≡ result_tree tree'
unfolding revert_newest
revert_newest-append merge_tree [] checkpoint current tree tree' h k =
    let same : current ≡ tree = ground arith in
    ap (λ c. then_older (revert_turn_tree merge_tree checkpoint c) (revert_newest merge_tree []))
      same
    ∙ ap (λ m. then_older m (revert_newest merge_tree [])) k
revert_newest-append merge_tree (t ∷ turns) checkpoint current tree tree' h k =
    let (next, e, r) =
      then_older-result (revert_turn_tree merge_tree t current) (revert_newest merge_tree turns)
        tree h in
    rw e (revert_newest-append merge_tree turns checkpoint next tree tree' r k)

read_merge-clean :
    (tree : Text)
    → text_lines (strip (tree ++ newline ∷ [])) ≡ tree ∷ []
    → read_merge (record { rc = 0; out = tree ++ newline ∷ []; err = [] }) ≡ result_tree tree
unfolding read_merge
read_merge-clean tree h = rw (read_merge, h) refl

module _ (trees : Text → Files) (merge_tree : Text → Text → Text → GitResult)
    (diff_tree : Text → Text → GitResult) (unlink : Text → Files → Files)
    (checkout_index : Text → List Text → Files → GitResult × Files) (snapshot : Files → Text) where
  revert_turn_tree-back :
      (first after : String) (checkpoint : TurnCheckpoint)
      → IsGit trees merge_tree diff_tree unlink checkout_index
      → checkpoint.before_tree ≡ some first
      → checkpoint.after_tree ≡ some after
      → text_lines (strip (codes first ++ newline ∷ [])) ≡ codes first ∷ []
      → revert_turn_tree merge_tree checkpoint (codes after) ≡ result_tree (codes first)
  unfolding revert_turn_tree
  revert_turn_tree-back first after checkpoint git b a i = elim (Bool-cases (first == after)) [
    | inl e ↦ rw (b, a, e) (ap (λ t. result_tree (codes t)) (sym ((eq_iff first after).0 e)))
    | inr e ↦
        rw (a, b, e, git.merges (codes after) (codes first)) (read_merge-clean (codes first) i)
  ]

  revert_newest-Chain :
      (first last : String) (turns : List TurnCheckpoint)
      → IsGit trees merge_tree diff_tree unlink checkout_index
      → Chain first turns last
      → revert_newest merge_tree (reverse turns) (codes last) ≡ result_tree (codes first)
  unfolding revert_newest
  revert_newest-Chain first last [] git no_turns = refl
  revert_newest-Chain first last (checkpoint ∷ turns) git (turn {after = after} b a i chain) =
      rw (reverse-cons checkpoint turns) (
        revert_newest-append merge_tree (reverse turns) checkpoint (codes last) (codes after)
          (codes first) (revert_newest-Chain after last turns git chain)
          (revert_turn_tree-back first after checkpoint git b a i))

  apply_merged-files :
      (tree : Text) (files : Files)
      → IsGit trees merge_tree diff_tree unlink checkout_index
      → ((q : Text) → trees (snapshot files) q ≡ files q)
      → ((apply_merged diff_tree unlink checkout_index merge_tree snapshot
            (result_tree tree)
            (snapshot files)
            files).0
          ≡ reverted)
        × ((q : Text)
            → (apply_merged diff_tree unlink checkout_index merge_tree snapshot
                  (result_tree tree)
                  (snapshot files)
                  files).1
                q
              ≡ trees tree q)
  unfolding apply_merged
  apply_merged-files tree files git h = elim (Bool-cases (text_eq tree (snapshot files))) [
    | inl e ↦
        rw e (refl, λ q. sym (h q) ∙ ap (λ t. trees t q) (sym (text_eq→≡ tree (snapshot files) e)))
    | inr e ↦ rw e (
        revert_to_tree-files trees merge_tree diff_tree unlink checkout_index tree (snapshot files)
          files git h)
  ]

  -- Where git and the file system do what they document, undoing turns that follow on one another
  -- succeeds, and gives the workspace the files of the tree before the first of them, if it is as the
  -- last one left it.
  pub revert_turns-Chain :
      (first last : String) (turns : List TurnCheckpoint) (files : Files)
      → IsGit trees merge_tree diff_tree unlink checkout_index
      → Chain first turns last
      → snapshot files ≡ codes last
      → ((q : Text) → trees (snapshot files) q ≡ files q)
      → ((revert_turns diff_tree unlink checkout_index merge_tree snapshot turns files).0
          ≡ reverted)
        × ((q : Text)
            → (revert_turns diff_tree unlink checkout_index merge_tree snapshot turns files).1 q
              ≡ trees (codes first) q)
  unfolding revert_turns
  revert_turns-Chain first last [] files git no_turns s h =
      (refl, λ q. sym (h q) ∙ ap (λ t. trees t q) s)
  revert_turns-Chain first last (checkpoint ∷ turns) files git chain s h =
      rw (s, revert_newest-Chain first last (checkpoint ∷ turns) git chain, sym s)
        (apply_merged-files (codes first) files git h)

  apply_merged-untouched :
      (merged : Merged) (original message : Text) (files : Files)
      → (apply_merged diff_tree unlink checkout_index merge_tree snapshot merged original files).0
        ≡ conflicted message
      → (apply_merged diff_tree unlink checkout_index merge_tree snapshot merged original files).1
        ≡ files
  unfolding apply_merged
  apply_merged-untouched (result_tree tree) original message files h =
      elim (Bool-cases (text_eq tree original)) [
        | inl e ↦ rw e refl
        | inr e ↦ absurd (
            ground (
              arith,
              revert_to_tree-no_conflict trees merge_tree diff_tree unlink checkout_index tree
                  original message files,
            ))
      ]
  apply_merged-untouched (conflict m) original message files h = refl
  apply_merged-untouched (git_failed m) original message files h = refl
  apply_merged-untouched no_tree original message files h = refl

  -- A revert that meets a conflict leaves every file as it is, also when the newer turns of the range
  -- could be undone.
  pub revert_turns-untouched :
      (turns : List TurnCheckpoint) (files : Files) (message : Text)
      → (revert_turns diff_tree unlink checkout_index merge_tree snapshot turns files).0
        ≡ conflicted message
      → (revert_turns diff_tree unlink checkout_index merge_tree snapshot turns files).1 ≡ files
  unfolding revert_turns
  revert_turns-untouched [] files message h = refl
  revert_turns-untouched (checkpoint ∷ turns) files message h =
      apply_merged-untouched
        (revert_newest merge_tree (reverse (checkpoint ∷ turns)) (snapshot files)) (snapshot files)
        message files h
