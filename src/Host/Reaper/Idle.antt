-- ===== src/Host/Reaper/Idle.antt =====
-- Which sessions the reaper of src/xarness/host.py evicts, over any run of it.
use xarness.Prelude.{
  ℕ, ◌+◌, ◌≤◌, ◌≡◌, refl, sym, ap, subst, ◌∙◌, ◌⊎◌, inl, inr, Bool, true, false, Option, none, some,
  List, [], ◌∷◌, String, Dict, lookup, lookup-filter_key, is_some, if◌then◌else◌, Option-cases,
  arith,
}
use xarness.Host.Reaper.{Host, advance, or_now, scan, hosted_clocks, settle, reap}
use xarness.Host.Reaper.Clocks.{
  KeysOnce, session_after, clock_after, lookup-scan_clocks, lookup-scan_kept, scan-KeysOnce,
}

-- The passes so far with their times and the sessions that they found, the last first.
abbrev pub Log : Type 0
Log = List (ℕ × Dict Bool)

-- The pass at a time found the session inactive, and so did every pass after it.
pub data QuietSince (name : String) (since : ℕ) : Log → Type 0 where
  at_first :
      {sessions : Dict Bool} {log : Log}
      → lookup name sessions ≡ some false
      → QuietSince name since ((since, sessions) ∷ log)
  again :
      {now : ℕ} {sessions : Dict Bool} {log : Log}
      → lookup name sessions ≡ some false
      → QuietSince name since log
      → QuietSince name since ((now, sessions) ∷ log)

-- A run of the loop: between two passes clients and turns may change the sessions at will.
pub data Run (ttl : ℕ) (start : Host) : Log → Host → Type 0 where
  begins : Run ttl start [] start
  changes :
      {log : Log} {host : Host} (sessions : Dict Bool)
      → KeysOnce sessions
      → Run ttl start log host
      → Run ttl start log (record host { sessions = sessions })
  passes :
      {log : Log} {host : Host} (now : ℕ)
      → host.shutdown ≡ false
      → Run ttl start log host
      → Run ttl start ((now, host.sessions) ∷ log) (reap ttl now host)

pub reap-sessions :
    (ttl now : ℕ) (host : Host)
    → host.shutdown ≡ false
    → (reap ttl now host).sessions ≡ (scan ttl now host.sessions host.inactive).kept
unfolding reap advance settle
reap-sessions ttl now host h = ground arith

pub reap-inactive :
    (ttl now : ℕ) (host : Host)
    → host.shutdown ≡ false
    → (reap ttl now host).inactive
      ≡ hosted_clocks
          (scan ttl now host.sessions host.inactive).kept
          (scan ttl now host.sessions host.inactive).clocks
unfolding reap advance settle
reap-inactive ttl now host h = ground arith

run-KeysOnce :
    (ttl : ℕ) (start : Host) (log : Log) (host : Host)
    → KeysOnce start.sessions
    → Run ttl start log host
    → KeysOnce host.sessions
run-KeysOnce ttl start log host u begins = u
run-KeysOnce ttl start log host u (changes sessions v run) = v
run-KeysOnce ttl start log host u (passes {host = h} now s run) =
    subst KeysOnce (sym (reap-sessions ttl now h s))
      (scan-KeysOnce ttl now h.sessions h.inactive (run-KeysOnce ttl start _ h u run))

clock_shape :
    (ttl now since : ℕ) (session : Option Bool) (clock : Option ℕ)
    → (if is_some (session_after ttl now session clock)
        then clock_after ttl now session clock
        else none)
      ≡ some since
    → (session ≡ some false) × ((clock ≡ some since) ⊎ (now ≡ since))
clock_shape ttl now since none clock h = absurd (ground arith)
clock_shape ttl now since (some true) clock h = absurd (ground arith)
clock_shape ttl now since (some false) none h = (refl, inr (ground arith))
clock_shape ttl now since (some false) (some s) h = (refl, inl (ground arith))

pub lookup-reap_inactive :
    (ttl now : ℕ) (host : Host) (name : String)
    → host.shutdown ≡ false
    → KeysOnce host.sessions
    → lookup name (reap ttl now host).inactive ≡ (
        if is_some (session_after ttl now (lookup name host.sessions) (lookup name host.inactive))
        then clock_after ttl now (lookup name host.sessions) (lookup name host.inactive)
        else none)
lookup-reap_inactive ttl now host name s u =
    ap (lookup name) (reap-inactive ttl now host s)
    ∙ lookup-filter_key (λ k. is_some (lookup k (scan ttl now host.sessions host.inactive).kept))
        name (scan ttl now host.sessions host.inactive).clocks
    ∙ ap
        (λ o.
          if is_some o then lookup name (scan ttl now host.sessions host.inactive).clocks else none)
        (lookup-scan_kept ttl now host.sessions host.inactive name u)
    ∙ ap
        (λ c.
          if is_some (session_after ttl now (lookup name host.sessions) (lookup name host.inactive))
          then c
          else none)
        (lookup-scan_clocks ttl now host.sessions host.inactive name u)

-- A clock says since when a session is inactive.
run-QuietSince :
    (ttl : ℕ) (start : Host) (log : Log) (host : Host) (name : String) (since : ℕ)
    → start.inactive ≡ []
    → KeysOnce start.sessions
    → Run ttl start log host
    → lookup name host.inactive ≡ some since
    → QuietSince name since log
run-QuietSince ttl start log host name since e u begins h =
    absurd (ground (arith, ap (lookup name) e))
run-QuietSince ttl start log host name since e u (changes {host = h'} sessions v run) h =
    run-QuietSince ttl start log h' name since e u run h
run-QuietSince ttl start log host name since e u (passes {log = l} {host = h'} now s run) h =
    let (quiet, clock) =
      clock_shape ttl now since (lookup name h'.sessions) (lookup name h'.inactive)
        (sym (lookup-reap_inactive ttl now h' name s (run-KeysOnce ttl start l h' u run)) ∙ h) in
    elim clock [
      | inl c ↦ again quiet (run-QuietSince ttl start l h' name since e u run c)
      | inr same ↦
          subst (λ t. QuietSince name since ((t, h'.sessions) ∷ l)) (sym same) (at_first quiet)
    ]

evicted_shape :
    (ttl now : ℕ) (session : Option Bool) (clock : Option ℕ) (active : Bool)
    → session ≡ some active
    → session_after ttl now session clock ≡ none
    → (session ≡ some false) × (or_now now clock + ttl ≤ now)
evicted_shape ttl now none clock active h k = absurd (ground arith)
evicted_shape ttl now (some true) clock active h k = absurd (ground arith)
evicted_shape ttl now (some false) clock active h k = (refl, ground arith)

-- Over any run of the reaper from a host with no clocks, and with each name once, a pass evicts only
-- a session that this pass and all passes for the time to live before it found inactive.
pub reap-QuietSince :
    (ttl now : ℕ) (start : Host) (log : Log) (host : Host) (name : String) (active : Bool)
    → start.inactive ≡ []
    → KeysOnce start.sessions
    → Run ttl start log host
    → host.shutdown ≡ false
    → lookup name host.sessions ≡ some active
    → lookup name (reap ttl now host).sessions ≡ none
    → (since : ℕ) × (since + ttl ≤ now) × QuietSince name since ((now, host.sessions) ∷ log)
reap-QuietSince ttl now start log host name active e u run s h k =
    let kept =
      lookup-scan_kept ttl now host.sessions host.inactive name
        (run-KeysOnce ttl start log host u run) in
    let (quiet, le) =
      evicted_shape ttl now (lookup name host.sessions) (lookup name host.inactive) active h
        (sym kept ∙ ap (lookup name) (sym (reap-sessions ttl now host s)) ∙ k) in
    elim (Option-cases (lookup name host.inactive)) [
      | inl c ↦ (now, omega (arith, le, ap (or_now now) c), at_first quiet)
      | inr (since, c) ↦ (
        since,
        omega (arith, le, ap (or_now now) c),
        again quiet (run-QuietSince ttl start log host name since e u run c),
      )
    ]
