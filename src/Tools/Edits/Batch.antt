-- ===== src/Tools/Edits/Batch.antt =====
-- A batch of edits of src/xarness/tools.py against what an edit and a batch are meant to do.
use xarness.Prelude.{
  ℕ, suc, ◌-◌, ◌≤◌, ◌<◌, ◌≡◌, ◌⊎◌, refl, sym, ap, subst, ◌∙◌, true, false, none, some, List, [],
  ◌∷◌, ◌++◌, Text, arith, nonempty, length, contains_code, Bool-cases, Option-cases, inl, inr,
}
use xarness.Tools.Edits.{
  EditSpec, count, replace, EditFailure, not_found, not_unique, edited, failed, apply_edit,
  apply_from, apply_edits, RunResult, empty_old, write, replacement, plan_edit,
}
use xarness.Tools.Edits.Replace.{join, split_from, join-split, join-replace, length-split}

-- The text is some parts with the old text between them, and the result is the same parts with the
-- new text between them: two parts, or any number from two on where all are replaced.
pub record Replaces (edit : EditSpec) (t t' : Text) : Type 0 where
  pub parts : List Text
  pub before : t ≡ join edit.old_string parts
  pub after : t' ≡ join edit.new_string parts
  pub found : 2 ≤ length parts
  pub unique : (edit.replace_all ≡ true) ⊎ (length parts ≡ 2)

-- The edits, each on the text that those before it produced.
pub data Applies : Text → List EditSpec → Text → Type 0 where
  done : (t : Text) → Applies t [] t
  then_edit :
      {t t' t'' : Text} {edit : EditSpec} {edits : List EditSpec}
      → Replaces edit t t'
      → Applies t' edits t''
      → Applies t (edit ∷ edits) t''

-- An edit that applies is a replacement of every occurrence.
apply_edit-eq :
    (edit : EditSpec) (t t' : Text)
    → apply_edit edit t ≡ (none, t')
    → (t' ≡ replace t edit.old_string edit.new_string (count t edit.old_string))
      × (1 ≤ count t edit.old_string)
      × ((edit.replace_all ≡ true) ⊎ (count t edit.old_string ≡ 1))
unfolding apply_edit
apply_edit-eq edit t t' h = (
  ground arith,
  ground arith,
  elim (Bool-cases edit.replace_all) [ inl e ↦ inl e | inr e ↦ inr (ground arith) ],
)

apply_edit-Replaces :
    (edit : EditSpec) (t t' old : Text)
    → edit.old_string ≡ old
    → nonempty old ≡ true
    → apply_edit edit t ≡ (none, t')
    → Replaces edit t t'
apply_edit-Replaces edit t t' [] e n h = absurd (ground arith)
apply_edit-Replaces edit t t' (p ∷ ps) e n h =
    let (same, found, unique) = apply_edit-eq edit t t' h in
    let parts = split_from (p ∷ ps) 0 [] t in
    let k = length-split p ps 0 [] t in
    let c : count t edit.old_string ≡ count t (p ∷ ps) = ap (count t) e in
    record {
      parts = parts;
      before = rw e (sym (join-split p ps 0 [] t));
      after =
          same
          ∙ ap (λ o. replace t o edit.new_string (count t o)) e
          ∙ sym (join-replace p ps edit.new_string 0 [] t);
      found = omega (arith, found, c, k);
      unique = elim unique [ inl e ↦ inl e | inr e ↦ inr (omega (arith, e, c, k)) ];
    }

-- No edit has an empty old text.
abbrev pub AllNonempty : List EditSpec → Type 0
AllNonempty [] = Unit
AllNonempty (edit ∷ edits) = (nonempty edit.old_string ≡ true) × AllNonempty edits

apply_from-Applies :
    (index : ℕ) (edits : List EditSpec) (t t' : Text)
    → AllNonempty edits
    → apply_from index edits t ≡ edited t'
    → Applies t edits t'
unfolding apply_from
apply_from-Applies index [] t t' n h =
    let e : t ≡ t' = ground arith in subst (Applies t []) e (done t)
apply_from-Applies index (edit ∷ edits) t t' (m, n) h = elim (Option-cases (apply_edit edit t).0) [
  | inl e ↦
      let u = (apply_edit edit t).1 in
      let here : apply_edit edit t ≡ (none, u) = ground arith in
      let later : apply_from (suc index) edits u ≡ edited t' = ground arith in
      then_edit (apply_edit-Replaces edit t u edit.old_string refl m here)
        (apply_from-Applies (suc index) edits u t' n later)
  | inr (f, e) ↦ absurd (ground arith)
]

empty_old-AllNonempty :
    (index : ℕ) (edits : List EditSpec) → empty_old index edits ≡ none → AllNonempty edits
unfolding empty_old
empty_old-AllNonempty index [] h = tt
empty_old-AllNonempty index (edit ∷ edits) h =
    (ground arith, empty_old-AllNonempty (suc index) edits (ground arith))

-- What `edit_file` writes is what its edits make of the file as it was read, each applied to the
-- text that those before it produced: the file was read and is valid UTF-8, each old text was
-- there, and only once where not all are to be replaced.
pub plan_edit-Applies :
    (strip : Text → Text) (read : RunResult) (path : Text) (edits : List EditSpec) (t : Text)
    → plan_edit strip read path edits ≡ write t
    → (read.exit_code ≡ 0)
      × (contains_code replacement read.stdout ≡ false)
      × Applies read.stdout edits t
unfolding plan_edit
plan_edit-Applies strip read path [] t h = absurd (ground arith)
plan_edit-Applies strip read path (edit ∷ edits) t h =
    let n : empty_old 1 (edit ∷ edits) ≡ none = ground arith in
    let a : apply_edits read.stdout (edit ∷ edits) ≡ edited t = ground arith in
    (
      ground arith,
      ground arith,
      apply_from-Applies 1 (edit ∷ edits) read.stdout t (empty_old-AllNonempty 1 (edit ∷ edits) n)
          (unfold apply_edits in a),
    )

-- Why an edit does not apply to a text: it has the old text not at all, or more than once where it
-- has to be unique.
abbrev pub Reason : Text → EditSpec → EditFailure → Type 0
Reason reached edit not_found = count reached edit.old_string ≡ 0
Reason reached edit (not_unique n) =
    (count reached edit.old_string ≡ n) × (1 < n) × (edit.replace_all ≡ false)

-- The edit at a place of the batch does not apply to the text that the edits before it produced.
pub record FailsAt (t : Text) (edits : List EditSpec) (i : ℕ) (f : EditFailure) : Type 0 where
  pub applied : List EditSpec
  pub edit : EditSpec
  pub rest : List EditSpec
  pub reached : Text
  pub batch : edits ≡ applied ++ edit ∷ rest
  pub place : i ≡ length applied
  pub applies : Applies t applied reached
  pub reason : Reason reached edit f

apply_edit-failure :
    (edit : EditSpec) (t : Text) (f : EditFailure)
    → (apply_edit edit t).0 ≡ some f
    → Reason t edit f
unfolding apply_edit
apply_edit-failure edit t not_found h = ground arith
apply_edit-failure edit t (not_unique n) h = (ground arith, ground arith, ground arith)

apply_from-FailsAt :
    (index : ℕ) (edits : List EditSpec) (t : Text) (i : ℕ) (f : EditFailure)
    → AllNonempty edits
    → apply_from index edits t ≡ failed i f
    → (index ≤ i) × FailsAt t edits (i - index) f
unfolding apply_from
apply_from-FailsAt index [] t i f n h = absurd (ground arith)
apply_from-FailsAt index (edit ∷ edits) t i f (m, n) h = elim (Option-cases (apply_edit edit t).0) [
  | inl e ↦
      let u = (apply_edit edit t).1 in
      let here : apply_edit edit t ≡ (none, u) = ground arith in
      let later : apply_from (suc index) edits u ≡ failed i f = ground arith in
      let (le, r) = apply_from-FailsAt (suc index) edits u i f n later in
      (
        omega arith,
        record {
          applied = edit ∷ r.applied;
          edit = r.edit;
          rest = r.rest;
          reached = r.reached;
          batch = ap (λ es. edit ∷ es) r.batch;
          place = omega (arith, le, r.place);
          applies = then_edit (apply_edit-Replaces edit t u edit.old_string refl m here) r.applies;
          reason = r.reason;
        },
      )
  | inr (g, e) ↦
      let same : g ≡ f = ground arith in
      let at_index : index ≡ i = ground arith in
      let reason = apply_edit-failure edit t f (e ∙ ap some same) in
      (
        omega (arith, at_index),
        record {
          applied = [];
          edit = edit;
          rest = edits;
          reached = t;
          batch = refl;
          place = omega (arith, at_index);
          applies = done t;
          reason = reason;
        },
      )
]

-- Where a batch with no empty old text fails with the number `i`, the `i - 1` edits before apply,
-- and the edit with that number does not, for the reason given.
apply_edits-FailsAt :
    (edits : List EditSpec) (t : Text) (i : ℕ) (f : EditFailure)
    → AllNonempty edits
    → apply_edits t edits ≡ failed i f
    → (1 ≤ i) × FailsAt t edits (i - 1) f
unfolding apply_edits
apply_edits-FailsAt edits t i f n h = apply_from-FailsAt 1 edits t i f n h
