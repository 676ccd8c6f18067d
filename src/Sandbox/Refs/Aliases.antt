-- ===== src/Sandbox/Refs/Aliases.antt =====
-- The names of the references (`bind_ref` of src/xarness/sandbox.py).
use xarness.Prelude.{
  ℕ, zero, suc, ◌+◌, ◌-◌, ◌≤◌, ◌≡◌, refl, ap, subst, sym, ◌∙◌, ◌⊎◌, inl, inr, Bool, true, false,
  Option, none, some, [], ◌∷◌, Text, length, if◌then◌else◌, arith, Bool-cases, Option-cases,
}
use xarness.Prelude.Strip.{text_eq, text_eq_refl, text_eq→≡}
use xarness.Sandbox.Refs.{
  ContainerRef, Refs, ref_at, put_ref, host_parts, host_name, dashed, is_free, alias_from,
  choose_alias, ref_mount, bound, bind_ref,
}

differ : false ≡ true → ⊥
differ h = cc

again :
    (b : Bool) (ref old : ContainerRef) (rest : Option ContainerRef)
    → (if b then some ref else rest) ≡ (if b then some ref else if b then some old else rest)
again true ref old rest = refl
again false ref old rest = refl

apart :
    (key alias k : Text)
    → text_eq key alias ≡ false
    → text_eq key k ≡ true
    → text_eq alias k ≡ false
apart key alias k e f = elim (Bool-cases (text_eq alias k)) [
  | inl g ↦
      let same : key ≡ alias = text_eq→≡ key k f ∙ sym (text_eq→≡ alias k g) in
      absurd (differ (sym e ∙ ap (text_eq key) (sym same) ∙ text_eq_refl key))
  | inr g ↦ g
]

ref_at-put_ref :
    (alias k : Text) (ref : ContainerRef) (refs : Refs)
    → ref_at k (put_ref alias ref refs) ≡ (if text_eq alias k then some ref else ref_at k refs)
ref_at-put_ref alias k ref [] = refl
ref_at-put_ref alias k ref ((key, old) ∷ refs) = elim (Bool-cases (text_eq key alias)) [
  | inl e ↦ rw (put_ref, e, text_eq→≡ key alias e) (again (text_eq alias k) ref old (ref_at k refs))
  | inr e ↦ elim (Bool-cases (text_eq key k)) [
    | inl f ↦
        let other : text_eq alias k ≡ false = apart key alias k e f in
        rw (put_ref, e, f, other) refl
    | inr f ↦ rw (put_ref, e, f) (ref_at-put_ref alias k ref refs)
  ]
]

alias_from-step :
    (refs : Refs) (host : Text) (rounds depth : ℕ) (alias : Text)
    → is_free host (ref_at alias refs) ≡ false
    → alias_from refs host (suc rounds) depth alias
      ≡ alias_from refs host rounds (depth + 1) (dashed depth host)
unfolding alias_from
alias_from-step refs host rounds depth alias e = rw (alias_from, e) refl

-- The alias is free, or the loop has gone through all the depths.
alias_from-free :
    (refs : Refs) (host : Text) (rounds depth : ℕ) (alias : Text)
    → (is_free host (ref_at (alias_from refs host (suc rounds) depth alias) refs) ≡ true)
      ⊎ (alias_from refs host (suc rounds) depth alias ≡ dashed (depth + rounds) host)
unfolding alias_from
alias_from-free refs host zero depth alias = elim (Bool-cases (is_free host (ref_at alias refs))) [
  | inl e ↦ inl (rw (alias_from, e) e)
  | inr e ↦ inr (rw (alias_from, e) (ap (λ d. dashed d host) (omega arith)))
]
alias_from-free refs host (suc rounds) depth alias =
    elim (Bool-cases (is_free host (ref_at alias refs))) [
      | inl e ↦ inl (rw (alias_from, e) e)
      | inr e ↦
          let step = alias_from-step refs host (suc rounds) depth alias e in
          let k : depth + 1 + rounds ≡ depth + suc rounds = omega arith in
          rw (step, ← k) (alias_from-free refs host rounds (depth + 1) (dashed depth host))
    ]

choose_alias-free :
    (refs : Refs) (host : Text)
    → 2 ≤ length (host_parts host)
    → (is_free host (ref_at (choose_alias refs host none) refs) ≡ true)
      ⊎ (choose_alias refs host none ≡ dashed (length (host_parts host)) host)
unfolding choose_alias
choose_alias-free refs host n =
    let k : length (host_parts host) - 1 ≡ suc (length (host_parts host) - 2) = omega arith in
    let m : 2 + (length (host_parts host) - 2) ≡ length (host_parts host) = omega arith in
    subst
      (λ rounds.
        (is_free host (ref_at (alias_from refs host rounds 2 (host_name host)) refs) ≡ true)
        ⊎ (alias_from refs host rounds 2 (host_name host) ≡ dashed (length (host_parts host)) host))
      (sym k)
      (subst
        (λ last.
          (is_free host (
              ref_at (alias_from refs host (suc (length (host_parts host) - 2)) 2 (host_name host))
                refs)
            ≡ true)
          ⊎ (alias_from refs host (suc (length (host_parts host) - 2)) 2 (host_name host)
              ≡ dashed last host))
        m (alias_from-free refs host (length (host_parts host) - 2) 2 (host_name host)))

bind_ref-put :
    (exists : Text → Bool) (refs : Refs) (host : Text) (mount : Option Text) (read_only : Bool)
    (more : Refs)
    → bind_ref exists refs host none mount read_only ≡ bound more
    → (new : ContainerRef) × (more ≡ put_ref (choose_alias refs host none) new refs)
unfolding bind_ref
bind_ref-put exists refs host mount read_only more h = elim (Bool-cases (exists host)) [
  | inl there ↦ elim (Option-cases (ref_mount (choose_alias refs host none) mount)) [
    | inl e ↦ absurd (ground arith)
    | inr (target, e) ↦
        (record { host = host; mount = target; read_only = read_only }, ground arith)
  ]
  | inr gone ↦ absurd (ground arith)
]

-- Binding a path that is not the root, with no alias given, keeps each reference but one to the same path
-- or one whose alias is the whole path in dashes.
pub bind_ref-keeps :
    (exists : Text → Bool) (refs : Refs) (host : Text) (mount : Option Text) (read_only : Bool)
    (more : Refs) (k : Text) (ref : ContainerRef)
    → 2 ≤ length (host_parts host)
    → bind_ref exists refs host none mount read_only ≡ bound more
    → ref_at k refs ≡ some ref
    → (ref_at k more ≡ some ref) ⊎ (ref.host ≡ host) ⊎ (k ≡ dashed (length (host_parts host)) host)
unfolding bind_ref choose_alias
bind_ref-keeps exists refs host mount read_only more k ref n h r =
    let alias = choose_alias refs host none in
    let (new, e) = bind_ref-put exists refs host mount read_only more h in
    let found : ref_at k more ≡ (if text_eq alias k then some new else ref_at k refs) =
      ap (ref_at k) e ∙ ref_at-put_ref alias k new refs in
    elim (Bool-cases (text_eq alias k)) [
      | inl same ↦ elim (choose_alias-free refs host n) [
        | inl free ↦
            let at : ref_at alias refs ≡ some ref =
              ap (λ a. ref_at a refs) (text_eq→≡ alias k same) ∙ r in
            inr (inl (text_eq→≡ ref.host host (sym (ap (is_free host) at) ∙ free)))
        | inr full ↦ inr (inr (sym (text_eq→≡ alias k same) ∙ full))
      ]
      | inr other ↦ inl (found ∙ rw other r)
    ]
