-- ===== src/Conversation/Repair/Answered.antt =====
-- After `repair_orphaned_tool_calls` of src/xarness/conversation.py: which calls are answered.
use mathlib.Core.List.{reverse_aux}
use xarness.Prelude.{
  ℕ, ◌+◌, ◌≡◌, refl, true, not, ◌||◌, Option, List, [], ◌∷◌, ◌++◌, String, contains, eq_iff, arith,
  length, filter,
}
use xarness.Conversation.Message.{Message, user, assistant, tool, ToolCall, calls_of}
use xarness.Conversation.Repair.{
  Loop, missing_calls, call_ids, interruptions, repair_at, repair_loop,
}

-- The ids that the tool messages answer.
abbrev pub tool_ids : List Message → List String
tool_ids [] = []
tool_ids (tool m ∷ ms) = m.tool_call_id ∷ tool_ids ms
tool_ids (m ∷ ms) = tool_ids ms

abbrev pub calls_in : Message → List ToolCall
calls_in (assistant m) = calls_of m.tool_calls
calls_in m = []

abbrev pub AllIn : List String → List ToolCall → Type 0
AllIn a [] = Unit
AllIn a (c ∷ cs) = (contains c.call_id a ≡ true) × AllIn a cs

-- Every call of every message has its id in the list.
abbrev pub Covered : List String → List Message → Type 0
Covered a [] = Unit
Covered a (m ∷ ms) = AllIn a (calls_in m) × Covered a ms

abbrev pub Subset : List String → List String → Type 0
Subset a b = (x : String) → contains x a ≡ true → contains x b ≡ true

AllIn-mono : (a b : List String) (cs : List ToolCall) → Subset a b → AllIn a cs → AllIn b cs
AllIn-mono a b [] h p = tt
AllIn-mono a b (c ∷ cs) h p = (h c.call_id p.0, AllIn-mono a b cs h p.1)

pub Covered-mono :
    (a b : List String) (ms : List Message) → Subset a b → Covered a ms → Covered b ms
Covered-mono a b [] h p = tt
Covered-mono a b (m ∷ ms) h p = (AllIn-mono a b (calls_in m) h p.0, Covered-mono a b ms h p.1)

pub contains-append :
    (x : String) (a b : List String) → contains x (a ++ b) ≡ (contains x a || contains x b)
contains-append x [] b = refl
contains-append x (y ∷ a) b = ground (arith, contains-append x a b)

abbrev missing : List String → List ToolCall → List ToolCall
missing a cs = filter (λ c. not (contains c.call_id a)) cs

missing_head :
    (a : List String) (c : ToolCall) (cs : List ToolCall)
    → contains c.call_id (call_ids (missing a (c ∷ cs)) ++ a) ≡ true
missing_head a c cs =
    ground (
      arith,
      eq_iff c.call_id c.call_id,
      contains-append c.call_id (call_ids (missing a (c ∷ cs))) a,
    )

missing_tail :
    (a : List String) (c : ToolCall) (cs : List ToolCall)
    → Subset (call_ids (missing a cs) ++ a) (call_ids (missing a (c ∷ cs)) ++ a)
missing_tail a c cs x h = ground (
  arith,
  contains-append x (call_ids (missing a (c ∷ cs))) a,
  contains-append x (call_ids (missing a cs)) a,
)

-- Each call is missing, or was answered before.
AllIn-missing : (a : List String) (cs : List ToolCall) → AllIn (call_ids (missing a cs) ++ a) cs
AllIn-missing a [] = tt
AllIn-missing a (c ∷ cs) = (
  missing_head a c cs,
  AllIn-mono (call_ids (missing a cs) ++ a) (call_ids (missing a (c ∷ cs)) ++ a) cs
      (missing_tail a c cs) (AllIn-missing a cs),
)

-- What is behind the index is covered by the answers so far, and each of those stands in a tool
-- message of the list.
pub record IsCovering (before : List Message) (s : Loop) : Type 0 where
  pub covered : Covered s.answered s.after
  pub present :
      (x : String)
      → contains x s.answered ≡ true
      → contains x (tool_ids (reverse_aux before s.after)) ≡ true

module _ (fresh : ℕ → String) (now : Option String) where
  tool_ids-interruptions :
      (n : ℕ) (cs : List ToolCall) (ms : List Message)
      → tool_ids (interruptions fresh now n cs ++ ms) ≡ call_ids cs ++ tool_ids ms
  unfolding interruptions
  tool_ids-interruptions n [] ms = refl
  tool_ids-interruptions n (c ∷ cs) ms = rw (tool_ids-interruptions (n + 1) cs ms)

  Covered-interruptions :
      (n : ℕ) (cs : List ToolCall) (ms : List Message) (a : List String)
      → Covered a ms
      → Covered a (interruptions fresh now n cs ++ ms)
  unfolding interruptions
  Covered-interruptions n [] ms a h = h
  Covered-interruptions n (c ∷ cs) ms a h = (tt, Covered-interruptions (n + 1) cs ms a h)

  AllIn-missing_calls :
      (m : Message) (a : List String) → AllIn (call_ids (missing_calls m a) ++ a) (calls_in m)
  unfolding missing_calls
  AllIn-missing_calls (user m) a = tt
  AllIn-missing_calls (assistant m) a = AllIn-missing a (calls_of m.tool_calls)
  AllIn-missing_calls (tool m) a = tt

  tool_ids-cons :
      (x : String) (m : Message) (ms : List Message)
      → contains x (tool_ids (m ∷ ms))
        ≡ (contains x (tool_ids (m ∷ [])) || contains x (tool_ids ms))
  tool_ids-cons x (user m) ms = refl
  tool_ids-cons x (assistant m) ms = refl
  tool_ids-cons x (tool m) ms = ground arith

  tool_ids-reverse_aux :
      (x : String) (before ms : List Message)
      → contains x (tool_ids (reverse_aux before ms))
        ≡ (contains x (tool_ids before) || contains x (tool_ids ms))
  tool_ids-reverse_aux x [] ms = refl
  tool_ids-reverse_aux x (user m ∷ before) ms = tool_ids-reverse_aux x before (user m ∷ ms)
  tool_ids-reverse_aux x (assistant m ∷ before) ms =
      tool_ids-reverse_aux x before (assistant m ∷ ms)
  tool_ids-reverse_aux x (tool m ∷ before) ms =
      ground (arith, tool_ids-reverse_aux x before (tool m ∷ ms))

  present_step :
      (x : String) (m : Message) (before : List Message) (n : ℕ) (new : List ToolCall)
      (ms : List Message) (a : List String)
      → contains x (call_ids new ++ a) ≡ true
      → (contains x a ≡ true → contains x (tool_ids (reverse_aux before (m ∷ ms))) ≡ true)
      → (contains x (tool_ids before)
          || contains x (tool_ids (m ∷ (interruptions fresh now n new ++ ms))))
        ≡ true
  present_step x m before n new ms a p h =
      rw
        (
          tool_ids-cons x m (interruptions fresh now n new ++ ms),
          tool_ids-interruptions n new ms,
          contains-append x (call_ids new) (tool_ids ms),
        )
        (ground (
          arith,
          contains-append x (call_ids new) a,
          tool_ids-reverse_aux x before (m ∷ ms),
          tool_ids-cons x m ms,
        ))

  repair_at-IsCovering :
      (m : Message) (before : List Message) (s : Loop)
      → IsCovering (m ∷ before) s
      → IsCovering before (repair_at fresh now m (length before) s)
  unfolding repair_at
  repair_at-IsCovering m before s h =
      let new = missing_calls m s.answered in
      record {
        covered = (
          AllIn-missing_calls m s.answered,
          Covered-interruptions s.drawn new s.after (call_ids new ++ s.answered) (
              Covered-mono s.answered (call_ids new ++ s.answered) s.after
                (λ x p. ground (arith, contains-append x (call_ids new) s.answered)) h.covered),
        );
        present = λ x p.
            rw
              (tool_ids-reverse_aux x before (m ∷ (interruptions fresh now s.drawn new ++ s.after)))
              (present_step x m before s.drawn new s.after s.answered p (h.present x));
      }

  pub repair_loop-IsCovering :
      (before : List Message) (s : Loop)
      → IsCovering before s
      → IsCovering [] (repair_loop fresh now before s)
  unfolding repair_loop
  repair_loop-IsCovering [] s h = h
  repair_loop-IsCovering (m ∷ before) s h =
      repair_loop-IsCovering before (repair_at fresh now m (length before) s)
        (repair_at-IsCovering m before s h)
