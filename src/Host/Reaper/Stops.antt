-- ===== src/Host/Reaper/Stops.antt =====
-- The passes of the reaper of src/xarness/host.py until the host exits.
use xarness.Prelude.{
  ℕ, ◌+◌, ◌≤◌, ◌≡◌, refl, ap, ◌∙◌, ◌⊎◌, inl, inr, true, false, Option, none, some, List, [], ◌∷◌,
  ◌++◌, String, lookup, any, ltb, Bool-cases, arith,
}
use xarness.Host.Reaper.{Host, grace, or_now, scan, entry_active, scanned, settle, reap, reap_all}
use xarness.Host.Reaper.Clocks.{KeysOnce}
use xarness.Host.Reaper.Ends.{
  Settled, reap-Settled, again-Settled, reap-empty, reap-persistent, reap-stopped, reap-quiet,
  Ending, reap-Ending, reap-settle,
}

-- The host exited, or it is settled, not persistent, and quiet since a time or earlier.
Waiting : ℕ → ℕ → Host → Type 0
Waiting t b host =
    (host.shutdown ≡ true)
    ⊎ (Settled t host × (host.persistent ≡ false) × (or_now 0 host.quiet_since ≤ b))

reap-Waiting :
    (ttl now t b : ℕ) (host : Host) → now ≤ b → Waiting t b host → Waiting t b (reap ttl now host)
unfolding Waiting
reap-Waiting ttl now t b host n (inl s) = inl (reap-stopped ttl now host s)
reap-Waiting ttl now t b host n (inr (h, p, q)) = elim (Bool-cases host.shutdown) [
  | inl s ↦ inl (reap-stopped ttl now host s)
  | inr s ↦ inr (
    again-Settled ttl now t host s h,
    reap-persistent ttl now host ∙ p,
    reap-quiet ttl now b host n q,
  )
]

reap_all-Waiting :
    (ttl t b : ℕ) (times : List ℕ) (host : Host)
    → any (λ now. ltb b now) times ≡ false
    → Waiting t b host
    → Waiting t b (reap_all ttl times host)
unfolding reap_all
reap_all-Waiting ttl t b [] host n h = h
reap_all-Waiting ttl t b (now ∷ times) host n h =
    reap_all-Waiting ttl t b times (reap ttl now host) (ground arith)
      (reap-Waiting ttl now t b host (ground arith) h)

quiet_at : (now b : ℕ) (quiet : Option ℕ) → now ≤ b → or_now 0 quiet ≤ b → or_now now quiet ≤ b
quiet_at now b none n q = n
quiet_at now b (some s) n q = q

Waiting-Ending :
    (ttl t b : ℕ) (host : Host) → t + ttl ≤ b → Waiting t b host → Ending b (reap ttl b host)
unfolding Waiting Ending
Waiting-Ending ttl t b host l (inl s) = inl (reap-stopped ttl b host s)
Waiting-Ending ttl t b host l (inr (h, p, q)) = elim (Bool-cases host.shutdown) [
  | inl s ↦ inl (reap-stopped ttl b host s)
  | inr s ↦
      reap-Ending ttl b b host s p (reap-empty ttl b t host s l h)
        (quiet_at b b host.quiet_since (omega arith) q)
]

again-Ending : (ttl now b : ℕ) (host : Host) → Ending b host → Ending b (reap ttl now host)
unfolding Ending scan
again-Ending ttl now b host (inl s) = inl (reap-stopped ttl now host s)
again-Ending ttl now b host (inr (e, p, (q, c, l))) = elim (Bool-cases host.shutdown) [
  | inl s ↦ inl (reap-stopped ttl now host s)
  | inr s ↦
      reap-Ending ttl now b host s p (ap (λ d. (scan ttl now d host.inactive).kept) e)
        (omega (arith, l, ap (or_now now) c))
]

reap_all-Ending :
    (ttl b : ℕ) (times : List ℕ) (host : Host) → Ending b host → Ending b (reap_all ttl times host)
unfolding reap_all
reap_all-Ending ttl b [] host h = h
reap_all-Ending ttl b (now ∷ times) host h =
    reap_all-Ending ttl b times (reap ttl now host) (again-Ending ttl now b host h)

settle-stops :
    (now q : ℕ) (host : Host)
    → host.persistent ≡ false
    → host.quiet_since ≡ some q
    → q + grace ≤ now
    → (settle now host).shutdown ≡ true
unfolding settle
settle-stops now q host p c l = ground (arith, p, c, l)

Ending-stops :
    (ttl b now : ℕ) (host : Host)
    → b + grace ≤ now
    → Ending b host
    → (reap ttl now host).shutdown ≡ true
unfolding Ending scan
Ending-stops ttl b now host l (inl s) = reap-stopped ttl now host s
Ending-stops ttl b now host l (inr (e, p, (q, c, k))) = elim (Bool-cases host.shutdown) [
  | inl s ↦ reap-stopped ttl now host s
  | inr s ↦
      ap (λ h. h.shutdown)
        (reap-settle ttl now host s (ap (λ d. (scan ttl now d host.inactive).kept) e))
      ∙ settle-stops now q (scanned ttl now host) p c (omega arith)
]

reap_all-append :
    (ttl : ℕ) (times later : List ℕ) (host : Host)
    → reap_all ttl (times ++ later) host ≡ reap_all ttl later (reap_all ttl times host)
unfolding reap_all
reap_all-append ttl [] later host = refl
reap_all-append ttl (now ∷ times) later host = reap_all-append ttl times later (reap ttl now host)

-- A host that is not persistent and whose sessions are all inactive exits: by the first pass that
-- comes the grace period after a pass that came the time to live after the first one, whatever
-- passes lie between, the earlier of them no later than the second one named. Its names are once in
-- the dict, and none of its clocks is ahead of the first pass.
pub reap_all-stops :
    (ttl t0 t1 t2 : ℕ) (times later : List ℕ) (host : Host)
    → host.persistent ≡ false
    → KeysOnce host.sessions
    → any entry_active host.sessions ≡ false
    → ((name : String) → or_now t0 (lookup name host.inactive) ≤ t0)
    → or_now 0 host.quiet_since ≤ t0
    → t0 + ttl ≤ t1
    → t1 + grace ≤ t2
    → any (λ now. ltb t1 now) times ≡ false
    → (reap_all ttl (t0 ∷ times ++ (t1 ∷ later ++ t2 ∷ [])) host).shutdown ≡ true
unfolding reap_all Waiting
reap_all-stops ttl t0 t1 t2 times later host p u i c q l g n =
    let first : Waiting t0 t1 (reap ttl t0 host) = elim (Bool-cases host.shutdown) [
      | inl s ↦ inl (reap-stopped ttl t0 host s)
      | inr s ↦ inr (
        reap-Settled ttl t0 t0 host s u i (λ name. inr (c name)),
        reap-persistent ttl t0 host ∙ p,
        reap-quiet ttl t0 t1 host (omega arith) (omega arith),
      )
    ] in
    let waiting = reap_all-Waiting ttl t0 t1 times (reap ttl t0 host) n first in
    let h1 = reap_all ttl times (reap ttl t0 host) in
    let ending =
      reap_all-Ending ttl t1 later (reap ttl t1 h1) (Waiting-Ending ttl t0 t1 h1 l waiting) in
    ap (λ h. h.shutdown)
      (reap_all-append ttl times (t1 ∷ later ++ t2 ∷ []) (reap ttl t0 host)
        ∙ reap_all-append ttl later (t2 ∷ []) (reap ttl t1 h1))
    ∙ Ending-stops ttl t1 t2 (reap_all ttl later (reap ttl t1 h1)) g ending
