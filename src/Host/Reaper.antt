-- ===== src/Host/Reaper.antt =====
-- `Host._reap` of src/xarness/host.py: one pass of its loop, as a function of the clock, which counts
-- milliseconds. Of a session only its name and `is_active` matter here; the names are the keys of a
-- dict. An eviction takes the session out of the dict before it waits for the session's shutdown,
-- so that a pass is one step.
pub mod Clocks
pub mod Idle
pub mod Ends
pub mod Stops
use xarness.Prelude.{
  ℕ, ◌+◌, Bool, true, false, not, ◌&&◌, ◌||◌, Option, none, some, List, [], ◌∷◌, String, ◌==◌, Dict,
  lookup, insert, filter, any, ltb, leb, is_some, if◌then◌else◌,
}

-- `GRACE_SECONDS`
abbrev pub grace : ℕ
grace = 5000

-- The host, with the local state of the loop: since when each session is inactive, and since when
-- nothing keeps the host alive.
pub record Host : Type 0 where
  pub sessions : Dict Bool
  pub persistent : Bool
  pub inactive : Dict ℕ
  pub quiet_since : Option ℕ
  pub shutdown : Bool

-- `d.pop(name, None)`
abbrev pub pop {ℓ} : {V : Type ℓ} → String → Dict V → Dict V
pop name d = filter (λ e. not (name == e.0)) d

abbrev pub or_now : ℕ → Option ℕ → ℕ
or_now now none = now
or_now now (some since) = since

-- What a pass over the sessions leaves: the sessions, the clocks, and whether one is warm.
pub record Scan : Type 0 where
  pub kept : Dict Bool
  pub clocks : Dict ℕ
  pub warm : Bool

abbrev pub keep : String → Bool → Scan → Scan
keep name active s = record s { kept = (name, active) ∷ s.kept }

abbrev pub keep_warm : String → Scan → Scan
keep_warm name s = record { kept = (name, false) ∷ s.kept; clocks = s.clocks; warm = true }

-- The loop over the sessions.
unfoldable pub scan : ℕ → ℕ → Dict Bool → Dict ℕ → Scan
scan ttl now [] clocks = record { kept = []; clocks = clocks; warm = false }
scan ttl now ((name, active) ∷ rest) clocks =
    let since = or_now now (lookup name clocks) in
    let gone = scan ttl now rest (pop name clocks) in
    let stays = scan ttl now rest (insert name since clocks) in
    if active
    then keep name true gone
    else if ltb now (since + ttl)
    then keep_warm name stays
    else gone

abbrev pub entry_active : String × Bool → Bool
entry_active e = e.1

-- The clocks of sessions that are still there.
abbrev pub hosted_clocks : Dict Bool → Dict ℕ → Dict ℕ
hosted_clocks sessions clocks = filter (λ e. is_some (lookup e.0 sessions)) clocks

-- The end of a pass: whether the host is quiet, and for how long.
unfoldable pub settle : ℕ → Host → Host
settle now host =
    if host.persistent then record host { quiet_since = none } else elim host.quiet_since [
      | none ↦ record host { quiet_since = some now }
      | some since ↦ record host { shutdown = host.shutdown || leb (since + grace) now }
    ]

unfoldable pub advance : Bool → ℕ → Host → Host
unfolding settle
advance alive now host = if alive then record host { quiet_since = none } else settle now host

-- The host after its sessions were scanned.
abbrev pub scanned : ℕ → ℕ → Host → Host
scanned ttl now host =
    let s = scan ttl now host.sessions host.inactive in
    record host { sessions = s.kept; inactive = hosted_clocks s.kept s.clocks }

-- One pass of `_reap`.
unfoldable pub reap : ℕ → ℕ → Host → Host
unfolding scan advance
reap ttl now host =
    let s = scan ttl now host.sessions host.inactive in
    if host.shutdown
    then host
    else advance (s.warm || any entry_active s.kept) now (scanned ttl now host)

-- The passes of the loop, at the readings of the clock.
unfoldable pub reap_all : ℕ → List ℕ → Host → Host
unfolding reap
reap_all ttl [] host = host
reap_all ttl (now ∷ times) host = reap_all ttl times (reap ttl now host)
