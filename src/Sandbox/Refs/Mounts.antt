-- ===== src/Sandbox/Refs/Mounts.antt =====
-- Where the references are mounted (`bind_ref` and `resolve_auto_refs` of src/xarness/sandbox.py).
use mathlib.Core.List.{reverse, reverse-append, reverse-reverse}
use xarness.Prelude.{
  ◌≡◌, refl, ap, subst, sym, ◌∙◌, Bool, true, false, not, ◌&&◌, ◌||◌, Option, none, some, List, [],
  ◌∷◌, ◌++◌, Text, codes, nonempty, eqb, if◌then◌else◌, arith, Bool-cases, Option-cases, ◌⊎◌, inl,
  inr,
}
use xarness.Prelude.Strip.{strip, text_eq}
use xarness.Config.{RefSpec}
use xarness.Config.Checks.{strip_slashes, goes_up, has_prefix, below_refs}
use xarness.Sandbox.Paths.{slash, is_absolute, normpath, refs_anchor, drop_slashes}
use xarness.Sandbox.Paths.Absolute.{normpath-no_parent}
use xarness.Sandbox.Refs.{
  ContainerRef, Refs, put_ref, or_canonical, relative_ref_mount, checked_mount, ref_mount, Bound,
  not_found, invalid, bound, choose_alias, bind_ref, resolve_auto_refs,
}

-- A mount that is below `/tmp/refs/`, or relative and neither the workspace nor its `.git`, as far as
-- the text says; in both cases without a `..`.
unfoldable pub placed : Text → Bool
placed mount =
    not (goes_up mount)
    && (if is_absolute mount
        then has_prefix (refs_anchor ++ slash ∷ []) mount
        else nonempty mount
          && not (text_eq mount (codes "."))
          && not (text_eq mount (codes ".git"))
          && not (has_prefix (codes ".git/") mount))

first_kept : (a b : Text) → is_absolute (a ++ b) ≡ false → is_absolute a ≡ false
first_kept [] b h = refl
first_kept (c ∷ a) b h = h

dropped_slashes : (t : Text) → (s : Text) × (s ++ drop_slashes t ≡ t)
dropped_slashes [] = ([], refl)
dropped_slashes (c ∷ cs) = elim (Bool-cases (eqb c slash)) [
  | inl e ↦ let (s, k) = dropped_slashes cs in (c ∷ s, rw e (ap (λ t. c ∷ t) k))
  | inr e ↦ ([], rw e refl)
]

drop_slashes-relative : (t : Text) → is_absolute (drop_slashes t) ≡ false
drop_slashes-relative [] = refl
drop_slashes-relative (c ∷ cs) = ground (arith, drop_slashes-relative cs)

strip_slashes-relative : (t : Text) → is_absolute (strip_slashes t) ≡ false
strip_slashes-relative t =
    let w = drop_slashes t in
    let (s, e) = dropped_slashes (reverse w) in
    let k : reverse (drop_slashes (reverse w)) ++ reverse s ≡ w =
      sym (reverse-append s (drop_slashes (reverse w))) ∙ ap reverse e ∙ reverse-reverse w in
    first_kept (reverse (drop_slashes (reverse w))) (reverse s)
      (ap is_absolute k ∙ drop_slashes-relative t)

rooted : (t : Text) → has_prefix (refs_anchor ++ slash ∷ []) t ≡ true → is_absolute t ≡ true
rooted [] h = absurd (ground arith)
rooted (c ∷ cs) h = ground arith

below_refs-placed :
    (value target : Text)
    → is_absolute value ≡ true
    → below_refs value ≡ some target
    → placed target ≡ true
unfolding below_refs placed
below_refs-placed value target a h =
    elim (Bool-cases (has_prefix (refs_anchor ++ slash ∷ []) (normpath value))) [
      | inl e ↦
          let same : normpath value ≡ target = ground arith in
          subst (λ t. placed t ≡ true) same
            (rw (placed, normpath-no_parent value a, rooted (normpath value) e, e) refl)
      | inr e ↦ absurd (ground arith)
    ]

refused_shape :
    (mount target : Text) (full up dot git below : Bool)
    → (if not full || up || dot || git || below then none else some mount) ≡ some target
    → (mount ≡ target) × ((not up && (full && not dot && not git && not below)) ≡ true)
refused_shape mount target full up dot git below h = ground arith

relative_ref_mount-placed :
    (mount target : Text)
    → is_absolute mount ≡ false
    → relative_ref_mount mount ≡ some target
    → placed target ≡ true
unfolding placed
relative_ref_mount-placed mount target a h =
    let (same, k) =
      refused_shape mount target (nonempty mount) (goes_up mount) (text_eq mount (codes "."))
        (text_eq mount (codes ".git")) (has_prefix (codes ".git/") mount) h in
    subst (λ t. placed t ≡ true) same (rw (placed, a) k)

checked_mount-placed :
    (value target : Text) → checked_mount value ≡ some target → placed target ≡ true
unfolding checked_mount
checked_mount-placed value target h = elim (Bool-cases (is_absolute value)) [
  | inl e ↦ below_refs-placed value target e (ground arith)
  | inr e ↦
      relative_ref_mount-placed (strip_slashes value) target (strip_slashes-relative value)
        (ground arith)
]

ref_mount-placed :
    (alias : Text) (mount : Option Text) (target : Text)
    → ref_mount alias mount ≡ some target
    → placed target ≡ true
unfolding ref_mount
ref_mount-placed alias mount target h =
    checked_mount-placed (strip (or_canonical alias mount)) target h

-- Every reference of some is placed.
unfoldable pub all_placed : Refs → Bool
unfolding placed
all_placed [] = true
all_placed ((alias, ref) ∷ refs) = placed ref.mount && all_placed refs

both : (a b : Bool) → (a && b) ≡ true → (a ≡ true) × (b ≡ true)
both true b h = (refl, h)
both false b h = absurd (ground arith)

put_ref-placed :
    (alias : Text) (ref : ContainerRef) (refs : Refs)
    → placed ref.mount ≡ true
    → all_placed refs ≡ true
    → all_placed (put_ref alias ref refs) ≡ true
unfolding all_placed
put_ref-placed alias ref [] h k = rw h refl
put_ref-placed alias ref ((key, old) ∷ refs) h k =
    let (a, b) = both (placed old.mount) (all_placed refs) k in
    elim (Bool-cases (text_eq key alias)) [
      | inl e ↦ rw (put_ref, e, all_placed, h) b
      | inr e ↦ rw (put_ref, e, all_placed, a) (put_ref-placed alias ref refs h b)
    ]

bind_ref-placed :
    (exists : Text → Bool) (refs : Refs) (host : Text) (alias mount : Option Text)
    (read_only : Bool) (more : Refs)
    → all_placed refs ≡ true
    → bind_ref exists refs host alias mount read_only ≡ bound more
    → all_placed more ≡ true
unfolding bind_ref
bind_ref-placed exists refs host alias mount read_only more k h = elim (Bool-cases (exists host)) [
  | inl there ↦ elim (Option-cases (ref_mount (choose_alias refs host alias) mount)) [
    | inl e ↦ absurd (ground arith)
    | inr (target, e) ↦
        let ref : ContainerRef = record { host = host; mount = target; read_only = read_only } in
        let same : put_ref (choose_alias refs host alias) ref refs ≡ more = ground arith in
        subst (λ r. all_placed r ≡ true) same
          (put_ref-placed (choose_alias refs host alias) ref refs
            (ref_mount-placed (choose_alias refs host alias) mount target e) k)
  ]
  | inr gone ↦ absurd (ground arith)
]

Bound-cases : (b : Bound) → (b ≡ not_found) ⊎ (b ≡ invalid) ⊎ ((more : Refs) × (b ≡ bound more))
Bound-cases not_found = inl refl
Bound-cases invalid = inr (inl refl)
Bound-cases (bound more) = inr (inr (more, refl))

-- Where the references that are there are placed, so are all those that `resolve_auto_refs` leaves: a
-- mount has no `..`, and is below `/tmp/refs/` or relative and not spelled as the workspace or its
-- `.git`.
pub resolve_auto_refs-placed :
    (resolve : Text → Text) (exists : Text → Bool) (specs : List RefSpec) (refs found : Refs)
    → all_placed refs ≡ true
    → resolve_auto_refs resolve exists specs refs ≡ some found
    → all_placed found ≡ true
unfolding resolve_auto_refs
resolve_auto_refs-placed resolve exists [] refs found k h = ground arith
resolve_auto_refs-placed resolve exists (spec ∷ specs) refs found k h =
    elim (Bound-cases (bind_ref exists refs (resolve spec.path) none spec.mount spec.read_only)) [
      | inl e ↦ resolve_auto_refs-placed resolve exists specs refs found k (ground arith)
      | inr (inl e) ↦ absurd (ground arith)
      | inr (inr (more, e)) ↦
          resolve_auto_refs-placed resolve exists specs more found
            (bind_ref-placed exists refs (resolve spec.path) none spec.mount spec.read_only more k
              e)
            (ground arith)
    ]
