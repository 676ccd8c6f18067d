-- ===== src/Session/Executor.antt =====
-- `Session.execute` of src/xarness/session.py: the results of recent commands answer the retries
-- of a client. Commands run one after the other, as under the session's lock.
use xarness.Prelude.{
  ℕ, ◌+◌, ◌≤◌, ◌<◌, ◌≡◌, refl, inl, inr, Option-cases, none, some, List, [], ◌∷◌, String, Dict,
  lookup, insert, lookup-insert, ◌==◌, eq_iff, eq_refl, arith, length, ltb, if◌then◌else◌,
}
use xarness.Session.{Session}
use xarness.Session.Commands.{Command, Reply}

pub record CommandResult : Type 0 where
  pub cmd_id : String
  pub reply : Reply

pub record Executor : Type 0 where
  pub session : Session
  pub recent : Dict CommandResult

abbrev pub cmd_dedupe_limit : ℕ
cmd_dedupe_limit = 128

-- `while len(recent) > CMD_DEDUPE_LIMIT: recent.popitem(last=False)`
unfoldable pub trim : Dict CommandResult → Dict CommandResult
trim [] = []
trim (e ∷ d) = let rest = trim d in if ltb cmd_dedupe_limit (length (e ∷ d)) then rest else e ∷ d

-- How many entries follow the one of a command.
abbrev pub age : String → Dict CommandResult → ℕ
age id [] = 0
age id ((j, r) ∷ d) = if j == id then length d else age id d

trim-length : (d : Dict CommandResult) → length (trim d) ≤ cmd_dedupe_limit
unfolding trim
trim-length [] = omega arith
trim-length (e ∷ d) = ground (arith, trim-length d)

lookup-trim :
    (id : String) (r : CommandResult) (d : Dict CommandResult)
    → lookup id d ≡ some r
    → age id d < cmd_dedupe_limit
    → (lookup id (trim d) ≡ some r) × (age id (trim d) ≤ age id d)
unfolding trim
lookup-trim id r [] h a = absurd (ground arith)
lookup-trim id r ((j, v) ∷ d) h a = ground (arith, lookup-trim id r d)

length-insert :
    (j : String) (v : CommandResult) (d : Dict CommandResult) → length (insert j v d) ≤ length d + 1
length-insert j v [] = omega arith
length-insert j v ((k, w) ∷ d) = ground (arith, length-insert j v d)

age-insert :
    (id j : String) (v : CommandResult) (d : Dict CommandResult)
    → age id (insert j v d) ≤ age id d + 1
age-insert id j v [] = ground arith
age-insert id j v ((k, w) ∷ d) =
    ground (arith, age-insert id j v d, length-insert j v d, eq_iff k j)

age-insert_new :
    (id : String) (v : CommandResult) (d : Dict CommandResult)
    → lookup id d ≡ none
    → age id (insert id v d) ≡ 0
age-insert_new id v [] h = rw (eq_refl id)
age-insert_new id v ((k, w) ∷ d) h = ground (arith, age-insert_new id v d)

-- `_run_command`, whatever it does to the session.
module _ (run : Command → Session → Reply × Session) where
  -- `execute`, once it has the lock.
  unfoldable pub execute : String → Command → Executor → CommandResult × Executor
  unfolding trim
  execute cmd_id c x = elim (lookup cmd_id x.recent) [
    | some cached ↦ (cached, x)
    | none ↦
        let (reply, session) = run c x.session in
        let result : CommandResult = record { cmd_id = cmd_id; reply = reply } in
        (result, record { session = session; recent = trim (insert cmd_id result x.recent) })
  ]

  unfoldable pub execute_all : List (String × Command) → Executor → Executor
  unfolding execute
  execute_all [] x = x
  execute_all ((cmd_id, c) ∷ cs) x = execute_all cs (execute cmd_id c x).1

  -- The command `id` has been executed with the result `r`, and at most `n` others since.
  record Remembers (id : String) (r : CommandResult) (n : ℕ) (x : Executor) : Type 0 where
    found : lookup id x.recent ≡ some r
    young : age id x.recent ≤ n

  execute_new :
      (j : String) (c : Command) (x : Executor)
      → lookup j x.recent ≡ none
      → execute j c x ≡ (
        record { cmd_id = j; reply = (run c x.session).0 },
        record {
          session = (run c x.session).1;
          recent = trim (insert j (record { cmd_id = j; reply = (run c x.session).0 }) x.recent);
        },
      )
  unfolding execute
  execute_new j c x e = rw (execute, e) refl

  execute_known :
      (j : String) (c : Command) (x : Executor) (r : CommandResult)
      → lookup j x.recent ≡ some r
      → execute j c x ≡ (r, x)
  unfolding execute
  execute_known j c x r e = rw (execute, e) refl

  execute-Remembers :
      (id : String) (r : CommandResult) (n : ℕ) (j : String) (c : Command) (x : Executor)
      → n + 1 < cmd_dedupe_limit
      → Remembers id r n x
      → Remembers id r (n + 1) (execute j c x).1
  execute-Remembers id r n j c x p h = elim (Option-cases (lookup j x.recent)) [
    | inl e ↦
        let v : CommandResult = record { cmd_id = j; reply = (run c x.session).0 } in
        let kept : lookup id (insert j v x.recent) ≡ some r =
          ground (arith, lookup-insert j id v x.recent, eq_iff j id, h.found) in
        let (found, young) =
          lookup-trim id r (insert j v x.recent) kept
            (omega (arith, age-insert id j v x.recent, h.young)) in
        rw (execute_new j c x e) (record {
          found = found;
          young = omega (arith, young, age-insert id j v x.recent, h.young);
        })
    | inr (v, e) ↦
        rw (execute_known j c x v e) (record { found = h.found; young = omega (arith, h.young) })
  ]

  first-Remembers :
      (id : String) (c : Command) (x : Executor)
      → lookup id x.recent ≡ none
      → Remembers id (execute id c x).0 0 (execute id c x).1
  first-Remembers id c x e =
      let v : CommandResult = record { cmd_id = id; reply = (run c x.session).0 } in
      let there : lookup id (insert id v x.recent) ≡ some v =
        ground (arith, lookup-insert id id v x.recent, eq_refl id) in
      let (found, young) =
        lookup-trim id v (insert id v x.recent) there
          (omega (arith, age-insert_new id v x.recent e)) in
      rw (execute_new id c x e)
        (record { found = found; young = omega (arith, young, age-insert_new id v x.recent e) })

  execute_all-Remembers :
      (id : String) (r : CommandResult) (n : ℕ) (cs : List (String × Command)) (x : Executor)
      → n + length cs < cmd_dedupe_limit
      → Remembers id r n x
      → Remembers id r (n + length cs) (execute_all cs x)
  unfolding execute_all
  execute_all-Remembers id r n [] x p h = record { found = h.found; young = omega (arith, h.young) }
  execute_all-Remembers id r n ((j, c) ∷ cs) x p h =
      let later =
        execute_all-Remembers id r (n + 1) cs (execute j c x).1 (omega arith)
          (execute-Remembers id r n j c x (omega arith) h) in
      record { found = later.found; young = omega (arith, later.young) }

  -- A command that was not known is executed once: a retry of its id, with fewer than 128 other
  -- commands between, returns the first result and changes nothing.
  pub execute_retry :
      (id : String) (c c' : Command) (cs : List (String × Command)) (x : Executor)
      → lookup id x.recent ≡ none
      → length cs < cmd_dedupe_limit
      → let (result, x') = execute id c x in
        execute id c' (execute_all cs x') ≡ (result, execute_all cs x')
  execute_retry id c c' cs x e p =
      execute_known id c' (execute_all cs (execute id c x).1) (execute id c x).0
        (execute_all-Remembers id (execute id c x).0 0 cs (execute id c x).1 (omega arith)
          (first-Remembers id c x e)).found

  execute-length :
      (j : String) (c : Command) (x : Executor)
      → length x.recent ≤ cmd_dedupe_limit
      → length (execute j c x).1.recent ≤ cmd_dedupe_limit
  execute-length j c x h = elim (Option-cases (lookup j x.recent)) [
    | inl e ↦
        rw (execute_new j c x e)
          (trim-length (insert j (record { cmd_id = j; reply = (run c x.session).0 }) x.recent))
    | inr (v, e) ↦ rw (execute_known j c x v e) h
  ]

  -- The results that are kept stay within their limit, whatever commands are executed.
  pub execute_all-length :
      (cs : List (String × Command)) (x : Executor)
      → length x.recent ≤ cmd_dedupe_limit
      → length (execute_all cs x).recent ≤ cmd_dedupe_limit
  unfolding execute_all
  execute_all-length [] x h = h
  execute_all-length ((j, c) ∷ cs) x h =
      execute_all-length cs (execute j c x).1 (execute-length j c x h)
