-- ===== src/Host/Reaper/Ends.antt =====
-- That the host of src/xarness/host.py exits once nothing keeps it alive.
use xarness.Prelude.{
  ℕ, ◌+◌, ◌≤◌, ◌≡◌, refl, sym, ap, subst, ◌∙◌, ◌⊎◌, inl, inr, Bool, true, false, ◌||◌, Option, none,
  some, [], ◌∷◌, String, ◌==◌, eq_refl, Dict, lookup, any, ltb, is_some, nonempty, if◌then◌else◌,
  Bool-cases, Option-cases, arith, insert,
}
use xarness.Host.Reaper.{Host, pop, or_now, scan, entry_active, scanned, advance, settle, reap}
use xarness.Host.Reaper.Clocks.{
  KeysOnce, session_after, clock_after, lookup-scan_kept, scan-KeysOnce, scan-warm,
}
use xarness.Host.Reaper.Idle.{reap-sessions, lookup-reap_inactive}

no_keys : {V : Type 0} (d : Dict V) → ((n : String) → lookup n d ≡ none) → d ≡ []
no_keys [] h = refl
no_keys ((k, v) ∷ d) h = let e = h k in let r = eq_refl k in absurd (ground arith)

lookup_idle :
    (n : String) (sessions : Dict Bool)
    → any entry_active sessions ≡ false
    → (lookup n sessions ≡ none) ⊎ (lookup n sessions ≡ some false)
lookup_idle n [] h = inl refl
lookup_idle n ((k, true) ∷ d) h = absurd (ground arith)
lookup_idle n ((k, false) ∷ d) h = elim (Bool-cases (k == n)) [
  | inl e ↦ inr (rw e refl)
  | inr e ↦ rw e (lookup_idle n d h)
]

scan-idle :
    (ttl now : ℕ) (sessions : Dict Bool) (clocks : Dict ℕ)
    → any entry_active sessions ≡ false
    → any entry_active (scan ttl now sessions clocks).kept ≡ false
unfolding scan
scan-idle ttl now [] clocks h = refl
scan-idle ttl now ((name, true) ∷ rest) clocks h = absurd (ground arith)
scan-idle ttl now ((name, false) ∷ rest) clocks h =
    elim (Bool-cases (ltb now (or_now now (lookup name clocks) + ttl))) [
      | inl w ↦
          rw w (scan-idle ttl now rest (insert name (or_now now (lookup name clocks)) clocks) h)
      | inr w ↦ rw w (scan-idle ttl now rest (pop name clocks) h)
    ]

-- No session is active, and each has been inactive since a time or earlier.
pub record Settled (t : ℕ) (host : Host) : Type 0 where
  pub once : KeysOnce host.sessions
  pub idle : any entry_active host.sessions ≡ false
  pub clocks :
      (n : String)
      → (lookup n host.sessions ≡ none) ⊎ ((s : ℕ) × (lookup n host.inactive ≡ some s) × (s ≤ t))

settled_shape :
    (ttl now t : ℕ) (session : Option Bool) (clock : Option ℕ)
    → (session ≡ none) ⊎ (session ≡ some false)
    → (session ≡ none) ⊎ (or_now now clock ≤ t)
    → (session_after ttl now session clock ≡ none)
      ⊎ ((s : ℕ) × ((if is_some (session_after ttl now session clock)
              then clock_after ttl now session clock
              else none)
            ≡ some s)
          × (s ≤ t))
settled_shape ttl now t none clock a b = inl refl
settled_shape ttl now t (some true) clock a b =
    absurd (elim a [ inl e ↦ ground arith | inr e ↦ ground arith ])
settled_shape ttl now t (some false) clock a (inl e) = absurd (ground arith)
settled_shape ttl now t (some false) clock a (inr le) =
    elim (Bool-cases (ltb now (or_now now clock + ttl))) [
      | inl w ↦ inr (or_now now clock, rw w refl, le)
      | inr w ↦ inl (rw w refl)
    ]

pub reap-Settled :
    (ttl now t : ℕ) (host : Host)
    → host.shutdown ≡ false
    → KeysOnce host.sessions
    → any entry_active host.sessions ≡ false
    → ((n : String) → (lookup n host.sessions ≡ none) ⊎ (or_now now (lookup n host.inactive) ≤ t))
    → Settled t (reap ttl now host)
reap-Settled ttl now t host s u i c =
    let e = reap-sessions ttl now host s in
    record {
      once = subst KeysOnce (sym e) (scan-KeysOnce ttl now host.sessions host.inactive u);
      idle = ap (any entry_active) e ∙ scan-idle ttl now host.sessions host.inactive i;
      clocks = λ n.
          let shape =
            settled_shape ttl now t (lookup n host.sessions) (lookup n host.inactive)
              (lookup_idle n host.sessions i) (c n) in
          let k = ap (lookup n) e ∙ lookup-scan_kept ttl now host.sessions host.inactive n u in
          elim shape [
            | inl gone ↦ inl (k ∙ gone)
            | inr (since, clock, le) ↦
                inr (since, lookup-reap_inactive ttl now host n s u ∙ clock, le)
          ];
    }

-- From a settled host, any pass.
pub again-Settled :
    (ttl now t : ℕ) (host : Host)
    → host.shutdown ≡ false
    → Settled t host
    → Settled t (reap ttl now host)
again-Settled ttl now t host s h = reap-Settled ttl now t host s h.once h.idle (λ n.
    elim (h.clocks n) [
      | inl e ↦ inl e
      | inr (since, c, le) ↦ inr (omega (arith, le, ap (or_now now) c))
    ])

gone_shape :
    (ttl now t s : ℕ) (session : Option Bool) (clock : Option ℕ)
    → (session ≡ none) ⊎ (session ≡ some false)
    → clock ≡ some s
    → s ≤ t
    → t + ttl ≤ now
    → session_after ttl now session clock ≡ none
gone_shape ttl now t s none clock a c l h = refl
gone_shape ttl now t s (some true) clock a c l h =
    absurd (elim a [ inl e ↦ ground arith | inr e ↦ ground arith ])
gone_shape ttl now t s (some false) clock a c l h =
    rw c (let w : ltb now (s + ttl) ≡ false = ground arith in rw w refl)

-- A settled host loses every session with the first pass after the time to live.
pub reap-empty :
    (ttl now t : ℕ) (host : Host)
    → host.shutdown ≡ false
    → t + ttl ≤ now
    → Settled t host
    → (scan ttl now host.sessions host.inactive).kept ≡ []
reap-empty ttl now t host s l h = no_keys (scan ttl now host.sessions host.inactive).kept (λ n.
    lookup-scan_kept ttl now host.sessions host.inactive n h.once ∙ elim (h.clocks n) [
      | inl e ↦ ap (λ o. session_after ttl now o (lookup n host.inactive)) e
      | inr (since, c, le) ↦
          gone_shape ttl now t since (lookup n host.sessions) (lookup n host.inactive)
            (lookup_idle n host.sessions h.idle) c le l
    ])

pub reap-persistent : (ttl now : ℕ) (host : Host) → (reap ttl now host).persistent ≡ host.persistent
unfolding reap advance settle
reap-persistent ttl now host = ground arith

pub reap-stopped :
    (ttl now : ℕ) (host : Host) → host.shutdown ≡ true → (reap ttl now host).shutdown ≡ true
unfolding reap
reap-stopped ttl now host h = rw h refl

-- A host that is quiet since a time or earlier, if it is quiet.
pub reap-quiet :
    (ttl now b : ℕ) (host : Host)
    → now ≤ b
    → or_now 0 host.quiet_since ≤ b
    → or_now 0 (reap ttl now host).quiet_since ≤ b
unfolding reap advance settle
reap-quiet ttl now b host n h = ground (arith, n, h)

-- The host exited, or has no sessions and is quiet since a time or earlier.
unfoldable pub Ending : ℕ → Host → Type 0
Ending b host =
    (host.shutdown ≡ true)
    ⊎ ((host.sessions ≡ [])
        × (host.persistent ≡ false)
        × ((q : ℕ) × (host.quiet_since ≡ some q) × (q ≤ b)))

settle-Ending :
    (now b : ℕ) (host : Host)
    → host.sessions ≡ []
    → host.persistent ≡ false
    → or_now now host.quiet_since ≤ b
    → Ending b (settle now host)
unfolding settle Ending
settle-Ending now b host e p q = elim (Option-cases host.quiet_since) [
  | inl n ↦ rw (p, n) (inr (e, p, (now, refl, omega (arith, q, ap (or_now now) n))))
  | inr (s, n) ↦ rw (p, n) (inr (e, p, (s, n, omega (arith, q, ap (or_now now) n))))
]

-- A pass that leaves no session.
pub reap-settle :
    (ttl now : ℕ) (host : Host)
    → host.shutdown ≡ false
    → (scan ttl now host.sessions host.inactive).kept ≡ []
    → reap ttl now host ≡ settle now (scanned ttl now host)
unfolding reap advance
reap-settle ttl now host s k =
    let found = scan ttl now host.sessions host.inactive in
    ap
      (λ v.
        if v
        then host
        else advance (found.warm || any entry_active found.kept) now (scanned ttl now host))
      s
    ∙ ap (λ v. advance v now (scanned ttl now host))
        (scan-warm ttl now host.sessions host.inactive ∙ ap nonempty k)

pub reap-Ending :
    (ttl now b : ℕ) (host : Host)
    → host.shutdown ≡ false
    → host.persistent ≡ false
    → (scan ttl now host.sessions host.inactive).kept ≡ []
    → or_now now host.quiet_since ≤ b
    → Ending b (reap ttl now host)
reap-Ending ttl now b host s p k q =
    subst (Ending b) (sym (reap-settle ttl now host s k))
      (settle-Ending now b (scanned ttl now host) k p q)
