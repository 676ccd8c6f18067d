-- ===== src/Host/Loading/One.antt =====
-- Calls of `load_session` (src/xarness/host.py) that run at the same time.
use xarness.Prelude.{
  ℕ, zero, suc, ◌+◌, ◌≤◌, ◌≡◌, refl, subst, ap, sym, ◌∙◌, ◌⊎◌, inl, inr, Bool, true, false, Option,
  none, some, List, [], ◌∷◌, get_elem?, arith, Bool-cases,
}
use xarness.Host.Loading.{
  Loader, entering, waiting, loading, failed, loaded, Hosted, load_step, advance_at, advance_all,
}

-- One for a call that loads, and one for a lock that is held.
weight : Loader → ℕ
weight loading = 1
weight _ = 0

held : Bool → ℕ
held true = 1
held false = 0

loadings : List Loader → ℕ
unfolding weight
loadings [] = 0
loadings (loader ∷ loaders) = weight loader + loadings loaders

-- A call that is through has the session that is hosted; while one loads, none is hosted.
Agrees : Option ℕ → Loader → Type 0
Agrees session (loaded n) = session ≡ some n
Agrees session loading = session ≡ none
Agrees session _ = Unit {0}

AllAgree : Option ℕ → List Loader → Type 0
unfolding Agrees
AllAgree session [] = Unit {0}
AllAgree session (loader ∷ loaders) = Agrees session loader × AllAgree session loaders

record IsConsistent (loaders : List Loader) (h : Hosted) : Type 0 where
  one : loadings loaders ≡ held h.locked
  agree : AllAgree h.session loaders

load_step-weight :
    (fails : Bool) (loader : Loader) (h : Hosted)
    → (weight loader ≡ 0) ⊎ (h.locked ≡ true)
    → weight (load_step fails loader h).0 + held h.locked
      ≡ weight loader + held (load_step fails loader h).1.locked
unfolding load_step weight held
load_step-weight fails entering h k = ground arith
load_step-weight fails waiting h k = ground arith
load_step-weight fails loading h k = ground arith
load_step-weight fails failed h k = refl
load_step-weight fails (loaded n) h k = refl

-- What a step does to the hosted session: it stays, or the call that loaded publishes one where none was.
Moves : ℕ → Hosted → Hosted → Type 0
Moves weighs h h' = (h'.session ≡ h.session) ⊎ ((h.session ≡ none) × (1 ≤ weighs))

load_step-Moves :
    (fails : Bool) (loader : Loader) (h : Hosted)
    → Agrees h.session loader
    → Moves (weight loader) h (load_step fails loader h).1
      × Agrees (load_step fails loader h).1.session (load_step fails loader h).0
unfolding load_step weight Agrees Moves
load_step-Moves fails entering h a = ground arith
load_step-Moves fails waiting h a = ground arith
load_step-Moves true loading h a = (inl refl, tt)
load_step-Moves false loading h a = (inr (a, omega arith), refl)
load_step-Moves fails failed h a = (inl refl, tt)
load_step-Moves fails (loaded n) h a = (inl refl, a)

Agrees-any :
    (loader : Loader) (session : Option ℕ)
    → Agrees none loader
    → weight loader ≡ 0
    → Agrees session loader
unfolding Agrees weight
Agrees-any entering session a w = tt
Agrees-any waiting session a w = tt
Agrees-any loading session a w = absurd (omega arith)
Agrees-any failed session a w = tt
Agrees-any (loaded n) session a w = absurd (ground arith)

AllAgree-any :
    (loaders : List Loader) (session : Option ℕ)
    → AllAgree none loaders
    → loadings loaders ≡ 0
    → AllAgree session loaders
unfolding AllAgree loadings
AllAgree-any [] session a w = tt
AllAgree-any (loader ∷ loaders) session (a, b) w =
    (Agrees-any loader session a (omega arith), AllAgree-any loaders session b (omega arith))

free :
    (loader : Loader) (h : Hosted)
    → weight loader ≤ held h.locked
    → (weight loader ≡ 0) ⊎ (h.locked ≡ true)
unfolding weight held
free loader h k = elim (Bool-cases h.locked) [ inl e ↦ inr e | inr e ↦ inl (ground arith) ]

advance_at-weight :
    (fails : Bool) (i : ℕ) (loaders : List Loader) (h : Hosted)
    → loadings loaders ≤ held h.locked
    → loadings (advance_at fails i loaders h).0 + held h.locked
      ≡ loadings loaders + held (advance_at fails i loaders h).1.locked
unfolding advance_at loadings
advance_at-weight fails i [] h k = refl
advance_at-weight fails zero (loader ∷ loaders) h k =
    omega (arith, load_step-weight fails loader h (free loader h (omega arith)))
advance_at-weight fails (suc i) (loader ∷ loaders) h k =
    omega (arith, advance_at-weight fails i loaders h (omega arith))

Moved : (fails : Bool) (i : ℕ) (loaders : List Loader) (h : Hosted) → Type 0
Moved fails i loaders h =
    Moves (loadings loaders) h (advance_at fails i loaders h).1
    × AllAgree (advance_at fails i loaders h).1.session (advance_at fails i loaders h).0

advance_at-Moved :
    (fails : Bool) (i : ℕ) (loaders : List Loader) (h : Hosted)
    → loadings loaders ≤ 1
    → AllAgree h.session loaders
    → Moved fails i loaders h
unfolding Moved Moves advance_at loadings AllAgree
advance_at-Moved fails i [] h k a = (inl refl, tt)
advance_at-Moved fails zero (loader ∷ loaders) h k (a, b) =
    let (moves, agrees) = load_step-Moves fails loader h a in
    elim moves [
      | inl same ↦ (inl same, (agrees, subst (λ t. AllAgree t loaders) (sym same) b))
      | inr (fresh, loads) ↦ (
        inr (fresh, omega arith),
        (
          agrees,
          AllAgree-any loaders (load_step fails loader h).1.session
              (subst (λ t. AllAgree t loaders) fresh b) (omega arith),
        ),
      )
    ]
advance_at-Moved fails (suc i) (loader ∷ loaders) h k (a, b) =
    let (moves, agree) = advance_at-Moved fails i loaders h (omega arith) b in
    elim moves [
      | inl same ↦ (inl same, (subst (λ t. Agrees t loader) (sym same) a, agree))
      | inr (fresh, loads) ↦ (
        inr (fresh, omega arith),
        (
          Agrees-any loader (advance_at fails i loaders h).1.session
              (subst (λ t. Agrees t loader) fresh a) (omega arith),
          agree,
        ),
      )
    ]

held-le : (b : Bool) → held b ≤ 1
unfolding held
held-le true = omega arith
held-le false = omega arith

advance_at-IsConsistent :
    (fails : Bool) (i : ℕ) (loaders : List Loader) (h : Hosted)
    → IsConsistent loaders h
    → IsConsistent (advance_at fails i loaders h).0 (advance_at fails i loaders h).1
unfolding Moved
advance_at-IsConsistent fails i loaders h c = record {
  one = omega (arith, c.one, advance_at-weight fails i loaders h (omega (arith, c.one)));
  agree = (advance_at-Moved fails i loaders h (omega (arith, c.one, held-le h.locked)) c.agree).1;
}

advance_all-IsConsistent :
    (steps : List (Bool × ℕ)) (loaders : List Loader) (h : Hosted)
    → IsConsistent loaders h
    → IsConsistent (advance_all steps loaders h).0 (advance_all steps loaders h).1
unfolding advance_all
advance_all-IsConsistent [] loaders h c = c
advance_all-IsConsistent ((fails, i) ∷ steps) loaders h c =
    advance_all-IsConsistent steps (advance_at fails i loaders h).0 (advance_at fails i loaders h).1
      (advance_at-IsConsistent fails i loaders h c)

loader_is : (loader : Loader) (n : ℕ) → some loader ≡ some (loaded n) → loader ≡ loaded n
loader_is loader n e = cc

same_number : (a b : ℕ) → some a ≡ some b → a ≡ b
same_number a b e = cc

AllAgree-at :
    (session : Option ℕ) (loaders : List Loader) (i n : ℕ)
    → AllAgree session loaders
    → get_elem? loaders i ≡ some (loaded n)
    → session ≡ some n
unfolding AllAgree Agrees
AllAgree-at session [] i n a e = absurd (ground arith)
AllAgree-at session (loader ∷ loaders) zero n (a, b) e =
    subst (Agrees session) (loader_is loader n e) a
AllAgree-at session (loader ∷ loaders) (suc i) n (a, b) e = AllAgree-at session loaders i n b e

-- A number of calls that enter.
unfoldable pub entering_all : ℕ → List Loader
entering_all zero = []
entering_all (suc n) = entering ∷ entering_all n

entering-loadings : (n : ℕ) → loadings (entering_all n) ≡ 0
unfolding entering_all loadings weight
entering-loadings zero = refl
entering-loadings (suc n) = omega (arith, entering-loadings n)

entering-AllAgree : (session : Option ℕ) (n : ℕ) → AllAgree session (entering_all n)
unfolding entering_all AllAgree Agrees
entering-AllAgree session zero = tt
entering-AllAgree session (suc n) = (tt, entering-AllAgree session n)

entering_all-IsConsistent :
    (n : ℕ) (h : Hosted) → h.locked ≡ false → IsConsistent (entering_all n) h
unfolding entering_all loadings held AllAgree weight Agrees
entering_all-IsConsistent n h k = record {
  one = entering-loadings n ∙ sym (ap held k);
  agree = entering-AllAgree h.session n;
}

-- However many calls of `load_session` for one name run at the same time, in whatever steps and whichever
-- loads fail, those that return a session return the same one, and the host has it. The lock was free at
-- their start, and nothing evicts the session in between.
pub advance_all-one_session :
    (n : ℕ) (h : Hosted) (steps : List (Bool × ℕ)) (i j a b : ℕ)
    → h.locked ≡ false
    → get_elem? (advance_all steps (entering_all n) h).0 i ≡ some (loaded a)
    → get_elem? (advance_all steps (entering_all n) h).0 j ≡ some (loaded b)
    → (a ≡ b) × ((advance_all steps (entering_all n) h).1.session ≡ some a)
advance_all-one_session n h steps i j a b k e f =
    let end = advance_all steps (entering_all n) h in
    let agree =
      (advance_all-IsConsistent steps (entering_all n) h (entering_all-IsConsistent n h k)).agree in
    let first : end.1.session ≡ some a = AllAgree-at end.1.session end.0 i a agree e in
    let second : end.1.session ≡ some b = AllAgree-at end.1.session end.0 j b agree f in
    (same_number a b (sym first ∙ second), first)
