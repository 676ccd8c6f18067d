-- ===== src/Tests/Hosting.antt =====
-- The theorems on host.py at concrete inputs.
use xarness.Prelude.{
  List, Bool, some, ℕ, ◌+◌, ◌≤◌, ◌≡◌, refl, true, false, none, [], ◌∷◌, ◌++◌, arith,
}
use xarness.Host.Reaper.{Host, reap, reap_all}
use xarness.Host.Reaper.Idle.{Log, QuietSince, Run, begins, changes, passes, reap-QuietSince}
use xarness.Host.Reaper.Stops.{reap_all-stops}
use xarness.Host.Loading.{Hosted, advance_all}
use xarness.Host.Loading.One.{entering_all, advance_all-one_session}

-- Two sessions, inactive from the start.
abbrev host : Host
host = record {
  sessions = ("a", false) ∷ ("b", false) ∷ [];
  persistent = false;
  inactive = [];
  quiet_since = none;
  shutdown = false;
}

reap_all-stops_example :
    (reap_all 120000
      (1000 ∷ (1250 ∷ 1500 ∷ []) ++ (121000 ∷ (121250 ∷ []) ++ 126000 ∷ []))
      host).shutdown
    ≡ true
reap_all-stops_example =
    reap_all-stops 120000 1000 121000 126000 (1250 ∷ 1500 ∷ []) (121250 ∷ []) host refl
      (refl, (refl, tt)) refl (λ name. omega arith) (omega arith) (omega arith) (omega arith) refl

-- The session b was active, is found inactive at 1000 ms, and is evicted two minutes later.
abbrev busy : Host
busy = record host { sessions = ("a", true) ∷ ("b", true) ∷ [] }

abbrev waiting : Host
waiting = record busy { sessions = ("a", true) ∷ ("b", false) ∷ [] }

abbrev log : Log
log = (1000, waiting.sessions) ∷ (750, busy.sessions) ∷ []

abbrev after_pass : Host
after_pass = reap 120000 1000 waiting

run : Run 120000 busy log (reap 120000 1000 waiting)
unfolding reap
run =
    passes 1000 refl
      (changes (("a", true) ∷ ("b", false) ∷ []) (refl, (refl, tt)) (passes 750 refl begins))

reap-QuietSince_example :
    (since : ℕ) × (since + 120000 ≤ 121000)
    × QuietSince "b" since ((121000, after_pass.sessions) ∷ log)
unfolding reap
reap-QuietSince_example =
    reap-QuietSince 120000 121000 busy log after_pass "b" false refl (refl, (refl, tt)) run refl
      refl refl

-- Three calls: the first one loads, the second one comes while it does and waits, and the third one
-- comes when the session is there.
abbrev unloaded : Hosted
unloaded = record { session = none; locked = false; next = 7 }

abbrev load_steps : List (Bool × ℕ)
load_steps = (false, 0) ∷ (false, 1) ∷ (false, 0) ∷ (false, 2) ∷ (false, 1) ∷ []

advance_all-one_session_example :
    (◌≡◌ {A = ℕ} 7 7) × ((advance_all load_steps (entering_all 3) unloaded).1.session ≡ some 7)
unfolding advance_all entering_all
advance_all-one_session_example =
    advance_all-one_session 3 unloaded load_steps 1 2 7 7 refl refl refl

-- The load fails, and the call that waited loads.
failed_load :
    (advance_all
      ((false, 0) ∷ (false, 1) ∷ (true, 0) ∷ (false, 1) ∷ (false, 1) ∷ [])
      (entering_all 2)
      unloaded).1.session
    ≡ some 7
unfolding advance_all entering_all
failed_load = refl
