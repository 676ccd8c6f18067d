-- ===== src/Git/Revert/Restore.antt =====
-- `revert_to_tree` of src/xarness/gitwork.py, from what git documents of its commands.
use xarness.Prelude.{
  ◌≡◌, ◌≢◌, refl, sym, ap, ◌∙◌, ◌⊎◌, inl, inr, Bool, true, false, Option, none, List, [], ◌∷◌, ◌++◌,
  Text, nonempty, eqb, if◌then◌else◌, filter, any, Bool-cases, arith,
}
use xarness.Prelude.Strip.{text_eq→≡, text_eq}
use xarness.Tools.Window.{newline}
use xarness.Git.Changes.{Change, parse_status_z}
use xarness.Git.Conflict.{GitResult}
use xarness.Git.Revert.{
  Files, reverted, conflicted, is_deleted, is_restored, paths_of, unlink_all, apply_changes,
  revert_to_tree,
}

-- `diff-tree -r -z --name-status` of two trees: it lists every path at which they differ, and as
-- deleted only what the second tree does not have.
pub record IsDiff (before after : Files) (diff : GitResult) : Type 0 where
  pub succeeds : diff.rc ≡ 0
  pub deleted :
      (q : Text)
      → (any (text_eq q) (paths_of (filter is_deleted (parse_status_z diff.out))) ≡ false)
        ⊎ (after q ≡ none)
  pub same :
      (q : Text)
      → (any (text_eq q) (paths_of (filter is_deleted (parse_status_z diff.out))) ≡ true)
        ⊎ (any (text_eq q) (paths_of (filter is_restored (parse_status_z diff.out))) ≡ true)
        ⊎ (before q ≡ after q)

-- What stands at a path before a deletion, after it, and after the writes, against what is wanted.
checked :
    (del res : Bool) (was rest now want : Option Text)
    → rest ≡ (if del then none else was)
    → now ≡ (if res then want else rest)
    → (del ≡ false) ⊎ (want ≡ none)
    → (del ≡ true) ⊎ (res ≡ true) ⊎ (was ≡ want)
    → now ≡ want
checked del true was rest now want r w d s = w
checked true false was rest now want r w (inl e) s = absurd (ground arith)
checked true false was rest now want r w (inr e) s = w ∙ r ∙ sym e
checked false false was rest now want r w d (inl e) = absurd (ground arith)
checked false false was rest now want r w d (inr (inl e)) = absurd (ground arith)
checked false false was rest now want r w d (inr (inr e)) = w ∙ r ∙ e

none_restored :
    {B C : Type 0} (q : Text) (paths : List Text)
    → nonempty paths ≡ false
    → B ⊎ (any (text_eq q) paths ≡ true) ⊎ C
    → B ⊎ (false ≡ true) ⊎ C
none_restored q [] h s = s
none_restored q (p ∷ paths) h s = absurd (ground arith)

module _ (trees : Text → Files) (merge_tree : Text → Text → Text → GitResult)
    (diff_tree : Text → Text → GitResult) (unlink : Text → Files → Files)
    (checkout_index : Text → List Text → Files → GitResult × Files) where
  -- What git and the file system do: a merge whose own side is the base gives the other side, a
  -- deletion takes one file, and a checkout writes the listed paths of a tree and no others.
  pub record IsGit : Type 0 where
    pub merges :
        (base theirs : Text)
        → merge_tree base base theirs ≡ record { rc = 0; out = theirs ++ newline ∷ []; err = [] }
    pub diffs : (current tree : Text) → IsDiff (trees current) (trees tree) (diff_tree current tree)
    pub unlinks :
        (p : Text) (files : Files) (q : Text)
        → unlink p files q ≡ (if text_eq q p then none else files q)
    pub checks_out :
        (tree : Text) (paths : List Text) (files : Files)
        → (checkout_index tree paths files).0.rc ≡ 0
    pub checked_out :
        (tree : Text) (paths : List Text) (files : Files) (q : Text)
        → (checkout_index tree paths files).1 q
          ≡ (if any (text_eq q) paths then trees tree q else files q)

  unlink_all-files :
      (git : IsGit) (paths : List Text) (files : Files) (q : Text)
      → unlink_all diff_tree unlink checkout_index paths files q
        ≡ (if any (text_eq q) paths then none else files q)
  unlink_all-files git [] files q = refl
  unlink_all-files git (p ∷ paths) files q =
      ground (arith, unlink_all-files git paths (unlink p files) q, git.unlinks p files q)

  apply_changes-files :
      (tree : Text) (changes : List Change) (files : Files)
      → IsGit
      → ((q : Text)
          → (any (text_eq q) (paths_of (filter is_deleted changes)) ≡ false)
            ⊎ (trees tree q ≡ none))
      → ((q : Text)
          → (any (text_eq q) (paths_of (filter is_deleted changes)) ≡ true)
            ⊎ (any (text_eq q) (paths_of (filter is_restored changes)) ≡ true)
            ⊎ (files q ≡ trees tree q))
      → ((apply_changes diff_tree unlink checkout_index tree changes files).0 ≡ reverted)
        × ((q : Text)
            → (apply_changes diff_tree unlink checkout_index tree changes files).1 q ≡ trees tree q)
  unfolding apply_changes
  apply_changes-files tree changes files git d s =
      let del = paths_of (filter is_deleted changes) in
      let res = paths_of (filter is_restored changes) in
      let rest = unlink_all diff_tree unlink checkout_index del files in
      elim (Bool-cases (nonempty res)) [
        | inl e ↦
            let k : eqb (checkout_index tree res rest).0.rc 0 ≡ true =
              ground (arith, git.checks_out tree res rest) in
            rw (e, k)
              (
                refl,
                λ q.
                    checked (any (text_eq q) del) (any (text_eq q) res) (files q) (rest q)
                      ((checkout_index tree res rest).1 q) (trees tree q)
                      (unlink_all-files git del files q) (git.checked_out tree res rest q) (d q)
                      (s q),
              )
        | inr e ↦ rw e (
          refl,
          λ q.
              checked (any (text_eq q) del) false (files q) (rest q) (rest q) (trees tree q)
                (unlink_all-files git del files q) refl (d q) (none_restored q res e (s q)),
        )
      ]

  -- `revert_to_tree` gives the workspace the files of the tree, if the tree that it is given as the
  -- current one is the workspace's.
  pub revert_to_tree-files :
      (tree current : Text) (files : Files)
      → IsGit
      → ((q : Text) → trees current q ≡ files q)
      → ((revert_to_tree diff_tree unlink checkout_index tree current files).0 ≡ reverted)
        × ((q : Text)
            → (revert_to_tree diff_tree unlink checkout_index tree current files).1 q
              ≡ trees tree q)
  unfolding revert_to_tree
  revert_to_tree-files tree current files git h =
      let diff = git.diffs current tree in
      let k : eqb (diff_tree current tree).rc 0 ≡ true = ground (arith, diff.succeeds) in
      elim (Bool-cases (text_eq current tree)) [
        | inl e ↦ rw e (refl, λ q. sym (h q) ∙ ap (λ t. trees t q) (text_eq→≡ current tree e))
        | inr e ↦
            rw (e, k)
              (apply_changes-files tree (parse_status_z (diff_tree current tree).out) files git
                diff.deleted
                (λ q. elim (diff.same q) [
                  | inl a ↦ inl a
                  | inr (inl b) ↦ inr (inl b)
                  | inr (inr c) ↦ inr (inr (sym (h q) ∙ c))
                ]))
      ]

  pub revert_to_tree-no_conflict :
      (tree current message : Text) (files : Files)
      → (revert_to_tree diff_tree unlink checkout_index tree current files).0 ≢ conflicted message
  unfolding revert_to_tree apply_changes
  revert_to_tree-no_conflict tree current message files h = ground arith
