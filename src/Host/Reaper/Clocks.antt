-- ===== src/Host/Reaper/Clocks.antt =====
-- What a pass of the reaper of src/xarness/host.py does to each session and its clock.
use xarness.Prelude.{
  ℕ, ◌+◌, ◌≡◌, refl, ap, subst, ◌∙◌, inl, inr, Bool, true, false, not, ◌||◌, Option, none, some, [],
  ◌∷◌, String, ◌==◌, eq_iff, eq_refl, Dict, lookup, insert, lookup-insert, lookup-filter_key, any,
  ltb, nonempty, if◌then◌else◌, Bool-cases, arith,
}
use xarness.Host.Reaper.{pop, or_now, scan, entry_active}

-- A dict has each key once.
abbrev pub KeysOnce : {V : Type 0} → Dict V → Type 0
KeysOnce [] = Unit
KeysOnce ((k, v) ∷ d) = (lookup k d ≡ none) × KeysOnce d

-- What becomes of a session, and of its clock.
abbrev pub session_after : ℕ → ℕ → Option Bool → Option ℕ → Option Bool
session_after ttl now none clock = none
session_after ttl now (some true) clock = some true
session_after ttl now (some false) clock =
    if ltb now (or_now now clock + ttl) then some false else none

abbrev pub clock_after : ℕ → ℕ → Option Bool → Option ℕ → Option ℕ
clock_after ttl now none clock = clock
clock_after ttl now (some true) clock = none
clock_after ttl now (some false) clock =
    if ltb now (or_now now clock + ttl) then some (or_now now clock) else none

lookup-pop :
    {V : Type 0} (name n : String) (d : Dict V)
    → lookup n (pop name d) ≡ (if name == n then none else lookup n d)
lookup-pop name n d = ground (arith, lookup-filter_key (λ k. not (name == k)) n d)

none_at :
    {V : Type 0} (name n : String) (d : Dict V)
    → lookup name d ≡ none
    → name == n ≡ true
    → lookup n d ≡ none
none_at name n d h e = subst (λ k. lookup k d ≡ none) ((eq_iff name n).0 e) h

-- The first session, if it is inactive.
scan_clocks_here :
    (ttl now : ℕ) (name : String) (rest : Dict Bool) (clocks : Dict ℕ)
    → lookup name (scan ttl now rest (pop name clocks)).clocks
      ≡ clock_after ttl now (lookup name rest) (lookup name (pop name clocks))
    → lookup name (scan ttl now rest (insert name (or_now now (lookup name clocks)) clocks)).clocks
      ≡ clock_after ttl now
          (lookup name rest)
          (lookup name (insert name (or_now now (lookup name clocks)) clocks))
    → lookup name rest ≡ none
    → lookup name (scan ttl now ((name, false) ∷ rest) clocks).clocks
      ≡ clock_after ttl now (lookup name ((name, false) ∷ rest)) (lookup name clocks)
unfolding scan
scan_clocks_here ttl now name rest clocks ih jh h =
    let since = or_now now (lookup name clocks) in
    let p = lookup-pop name name clocks in
    let q = lookup-insert name name since clocks in
    let r = eq_refl name in
    elim (Bool-cases (ltb now (since + ttl))) [
      | inl w ↦ rw (w, r, jh, h, q, r) (rw w refl)
      | inr w ↦ rw (w, r, ih, h, p, r) (rw w refl)
    ]

pub lookup-scan_clocks :
    (ttl now : ℕ) (sessions : Dict Bool) (clocks : Dict ℕ) (n : String)
    → KeysOnce sessions
    → lookup n (scan ttl now sessions clocks).clocks
      ≡ clock_after ttl now (lookup n sessions) (lookup n clocks)
unfolding scan
lookup-scan_clocks ttl now [] clocks n u = refl
lookup-scan_clocks ttl now ((name, true) ∷ rest) clocks n (h, u) =
    let ih = lookup-scan_clocks ttl now rest (pop name clocks) n u in
    let p = lookup-pop name n clocks in
    elim (Bool-cases (name == n)) [
      | inl e ↦ let m = none_at name n rest h e in rw (e, ih, m, p, e) refl
      | inr e ↦ rw (e, ih, p, e) refl
    ]
lookup-scan_clocks ttl now ((name, false) ∷ rest) clocks n (h, u) =
    let since = or_now now (lookup name clocks) in
    let ih = lookup-scan_clocks ttl now rest (pop name clocks) n u in
    let jh = lookup-scan_clocks ttl now rest (insert name since clocks) n u in
    let p = lookup-pop name n clocks in
    let q = lookup-insert name n since clocks in
    elim (Bool-cases (name == n)) [
      | inl e ↦
          subst
            (λ k.
              lookup k (scan ttl now ((name, false) ∷ rest) clocks).clocks
              ≡ clock_after ttl now (lookup k ((name, false) ∷ rest)) (lookup k clocks))
            ((eq_iff name n).0 e)
            (scan_clocks_here ttl now name rest clocks
              (lookup-scan_clocks ttl now rest (pop name clocks) name u)
              (lookup-scan_clocks ttl now rest (insert name since clocks) name u) h)
      | inr e ↦ elim (Bool-cases (ltb now (since + ttl))) [
        | inl w ↦ rw (w, e, jh, q, e) refl
        | inr w ↦ rw (w, e, ih, p, e) refl
      ]
    ]

-- The first session, if it is inactive.
scan_kept_here :
    (ttl now : ℕ) (name : String) (rest : Dict Bool) (clocks : Dict ℕ)
    → lookup name (scan ttl now rest (pop name clocks)).kept
      ≡ session_after ttl now (lookup name rest) (lookup name (pop name clocks))
    → lookup name rest ≡ none
    → lookup name (scan ttl now ((name, false) ∷ rest) clocks).kept
      ≡ session_after ttl now (lookup name ((name, false) ∷ rest)) (lookup name clocks)
unfolding scan
scan_kept_here ttl now name rest clocks ih h =
    let r = eq_refl name in
    elim (Bool-cases (ltb now (or_now now (lookup name clocks) + ttl))) [
      | inl w ↦ rw (w, r) (rw w refl)
      | inr w ↦ rw (w, r, ih, h) (rw w refl)
    ]

pub lookup-scan_kept :
    (ttl now : ℕ) (sessions : Dict Bool) (clocks : Dict ℕ) (n : String)
    → KeysOnce sessions
    → lookup n (scan ttl now sessions clocks).kept
      ≡ session_after ttl now (lookup n sessions) (lookup n clocks)
unfolding scan
lookup-scan_kept ttl now [] clocks n u = refl
lookup-scan_kept ttl now ((name, true) ∷ rest) clocks n (h, u) =
    let ih = lookup-scan_kept ttl now rest (pop name clocks) n u in
    let p = lookup-pop name n clocks in
    elim (Bool-cases (name == n)) [ inl e ↦ rw e refl | inr e ↦ rw (e, ih, p, e) refl ]
lookup-scan_kept ttl now ((name, false) ∷ rest) clocks n (h, u) =
    let since = or_now now (lookup name clocks) in
    let ih = lookup-scan_kept ttl now rest (pop name clocks) n u in
    let jh = lookup-scan_kept ttl now rest (insert name since clocks) n u in
    let p = lookup-pop name n clocks in
    let q = lookup-insert name n since clocks in
    elim (Bool-cases (name == n)) [
      | inl e ↦
          subst
            (λ k.
              lookup k (scan ttl now ((name, false) ∷ rest) clocks).kept
              ≡ session_after ttl now (lookup k ((name, false) ∷ rest)) (lookup k clocks))
            ((eq_iff name n).0 e)
            (scan_kept_here ttl now name rest clocks
              (lookup-scan_kept ttl now rest (pop name clocks) name u) h)
      | inr e ↦ elim (Bool-cases (ltb now (since + ttl))) [
        | inl w ↦ rw (w, e, jh, q, e) refl
        | inr w ↦ rw (w, e, ih, p, e) refl
      ]
    ]

-- The host is kept alive by exactly the sessions that are left.
pub scan-warm :
    (ttl now : ℕ) (sessions : Dict Bool) (clocks : Dict ℕ)
    → let s = scan ttl now sessions clocks in (s.warm || any entry_active s.kept) ≡ nonempty s.kept
unfolding scan
scan-warm ttl now [] clocks = refl
scan-warm ttl now ((name, true) ∷ rest) clocks = ground arith
scan-warm ttl now ((name, false) ∷ rest) clocks =
    elim (Bool-cases (ltb now (or_now now (lookup name clocks) + ttl))) [
      | inl w ↦ rw w refl
      | inr w ↦ rw w (scan-warm ttl now rest (pop name clocks))
    ]

-- The names of the sessions that are left are once in the dict.
pub scan-KeysOnce :
    (ttl now : ℕ) (sessions : Dict Bool) (clocks : Dict ℕ)
    → KeysOnce sessions
    → KeysOnce (scan ttl now sessions clocks).kept
unfolding scan
scan-KeysOnce ttl now [] clocks u = tt
scan-KeysOnce ttl now ((name, true) ∷ rest) clocks (h, u) = (
  lookup-scan_kept ttl now rest (pop name clocks) name u
      ∙ ap (λ o. session_after ttl now o (lookup name (pop name clocks))) h,
  scan-KeysOnce ttl now rest (pop name clocks) u,
)
scan-KeysOnce ttl now ((name, false) ∷ rest) clocks (h, u) =
    let since = or_now now (lookup name clocks) in
    elim (Bool-cases (ltb now (since + ttl))) [
      | inl w ↦ rw w (
        lookup-scan_kept ttl now rest (insert name since clocks) name u
            ∙ ap (λ o. session_after ttl now o (lookup name (insert name since clocks))) h,
        scan-KeysOnce ttl now rest (insert name since clocks) u,
      )
      | inr w ↦ rw w (scan-KeysOnce ttl now rest (pop name clocks) u)
    ]
