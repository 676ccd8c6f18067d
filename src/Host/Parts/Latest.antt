-- ===== src/Host/Parts/Latest.antt =====
-- The session that a workspace was last used with (`Host._workspace_last_used` of
-- src/xarness/host.py).
use xarness.Prelude.{
  ◌≡◌, refl, subst, ap, Bool, true, false, not, ◌&&◌, is_some, ◌⊎◌, inl, inr, any, Option, none,
  some, List, [], ◌∷◌, ◌++◌, Text, arith, Bool-cases, Option-cases,
}
use xarness.Host.Parts.{Meta, text_ltb, is_same, newer, latest, workspace_last_used}

text_ltb_irrefl : (t : Text) → text_ltb t t ≡ false
text_ltb_irrefl [] = refl
text_ltb_irrefl (c ∷ t) = ground (arith, text_ltb_irrefl t)

ltb-nil : (t : Text) → text_ltb t [] ≡ false
ltb-nil [] = refl
ltb-nil (c ∷ t) = refl

no-ltb : (t : Text) → text_ltb t [] ≡ true → ⊥
no-ltb [] h = absurd (ground arith)
no-ltb (c ∷ t) h = absurd (ground arith)

text_ltb_trans : (a b c : Text) → text_ltb a b ≡ true → text_ltb b c ≡ true → text_ltb a c ≡ true
text_ltb_trans a [] c h k = absurd (no-ltb a h)
text_ltb_trans a (y ∷ b) [] h k = absurd (ground arith)
text_ltb_trans [] (y ∷ b) (z ∷ c) h k = refl
text_ltb_trans (x ∷ a) (y ∷ b) (z ∷ c) h k = ground (arith, text_ltb_trans a b c)

-- What is not below a text that is not below a third is not below the third.
text_ltb_split : (a b c : Text) → text_ltb a b ≡ false → text_ltb b c ≡ false → text_ltb a c ≡ false
text_ltb_split a b [] h k = ltb-nil a
text_ltb_split a [] (z ∷ c) h k = absurd (ground arith)
text_ltb_split [] (y ∷ b) (z ∷ c) h k = absurd (ground arith)
text_ltb_split (x ∷ a) (y ∷ b) (z ∷ c) h k = ground (arith, text_ltb_split a b c)

-- A session of the workspace that is newer than one given.
unfoldable pub newer_than : Meta → Meta → Bool
newer_than m o = is_same o.same && text_ltb m.updated_at o.updated_at

best_older : Option Meta → Meta → Bool
best_older none m = true
best_older (some best) m = not (text_ltb m.updated_at best.updated_at)

latest-newest :
    (best : Option Meta) (metas : List Meta) (m : Meta)
    → latest best metas ≡ some m
    → (any (newer_than m) metas ≡ false) × (best_older best m ≡ true)
unfolding latest newer_than best_older
latest-newest none [] m h = absurd (ground arith)
latest-newest (some best) [] m h = (refl, ground (arith, text_ltb_irrefl m.updated_at))
latest-newest none (o ∷ metas) m h =
    ground (arith, latest-newest (some o) metas m, latest-newest none metas m)
latest-newest (some best) (o ∷ metas) m h = ground (
  arith,
  latest-newest (some o) metas m,
  latest-newest (some best) metas m,
  text_ltb_trans m.updated_at best.updated_at o.updated_at,
  text_ltb_split m.updated_at best.updated_at o.updated_at,
)

-- A session stands in a list and is of the workspace.
unfoldable pub IsOf : List Meta → Meta → Type 0
IsOf metas m =
    (before : List Meta) × (after : List Meta) × (metas ≡ before ++ m ∷ after)
    × (is_same m.same ≡ true)

later-IsOf : (metas : List Meta) (o m : Meta) → IsOf metas m → IsOf (o ∷ metas) m
unfolding IsOf
later-IsOf metas o m (before, after, e, same) = (o ∷ before, after, ap (λ t. o ∷ t) e, same)

some-injective : (a b : Meta) → some a ≡ some b → a ≡ b
some-injective a b h = cc

latest-IsOf :
    (best : Option Meta) (metas : List Meta) (m : Meta)
    → latest best metas ≡ some m
    → (best ≡ some m) ⊎ IsOf metas m
unfolding latest IsOf
latest-IsOf best [] m h = inl h
latest-IsOf best (o ∷ metas) m h = elim (Bool-cases (is_same o.same && newer best o)) [
  | inl e ↦ elim (latest-IsOf (some o) metas m (ground arith)) [
    | inl same ↦
        let it : o ≡ m = some-injective o m same in
        let of : is_same m.same ≡ true = subst (λ x. is_same x.same ≡ true) it (ground arith) in
        inr ([], metas, ap (λ x. x ∷ metas) it, of)
    | inr rest ↦ inr (later-IsOf metas o m rest)
  ]
  | inr e ↦ elim (latest-IsOf best metas m (ground arith)) [
    | inl same ↦ inl same
    | inr rest ↦ inr (later-IsOf metas o m rest)
  ]
]

latest-some : (best : Meta) (metas : List Meta) → is_some (latest (some best) metas) ≡ true
unfolding latest
latest-some best [] = refl
latest-some best (o ∷ metas) = ground (arith, latest-some o metas, latest-some best metas)

latest-none :
    (metas : List Meta) → latest none metas ≡ none → any (λ m. is_same m.same) metas ≡ false
unfolding latest
latest-none [] h = refl
latest-none (o ∷ metas) h = ground (arith, latest-none metas, latest-some o metas)

-- The last use of a workspace is that of a saved session of the workspace than which none of them is
-- newer, or nothing where there is no such session.
pub workspace_last_used-newest :
    (metas : List Meta)
    → ((any (λ m. is_same m.same) metas ≡ false) × (workspace_last_used metas ≡ (none, none)))
      ⊎ ((m : Meta) × IsOf metas m
          × (any (newer_than m) metas ≡ false)
          × (workspace_last_used metas ≡ (m.profile, m.sandbox_name)))
unfolding workspace_last_used IsOf
workspace_last_used-newest metas = elim (Option-cases (latest none metas)) [
  | inl e ↦ inl (latest-none metas e, rw (workspace_last_used, e) refl)
  | inr (m, e) ↦ elim (latest-IsOf none metas m e) [
    | inl same ↦ absurd (ground arith)
    | inr found ↦ inr (m, found, (latest-newest none metas m e).0, rw (workspace_last_used, e) refl)
  ]
]
