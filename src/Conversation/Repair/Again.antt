-- ===== src/Conversation/Repair/Again.antt =====
-- A second `repair_orphaned_tool_calls` of src/xarness/conversation.py.
use mathlib.Core.List.{reverse, reverse_aux}
use xarness.Prelude.{
  ℕ, ◌+◌, ◌≡◌, true, false, Option, none, List, [], ◌∷◌, ◌++◌, String, contains, eq_iff, ◌==◌,
  arith, length,
}
use xarness.Conversation.Message.{Message, user, assistant, tool, ToolCall}
use xarness.Conversation.Log.{Conversation}
use xarness.Conversation.Repair.{
  Loop, answered_ids, missing_calls, interruptions, repair_at, repair_loop,
  repair_orphaned_tool_calls,
}
use xarness.Conversation.Repair.Answered.{Covered, AllIn, calls_in, tool_ids}
use xarness.Conversation.Repair.Valid.{repair_answers, repair-Covered, repair-messages}

abbrev pub AllNamed : List ToolCall → Type 0
AllNamed [] = Unit
AllNamed (c ∷ cs) = ((c.call_id == "") ≡ false) × AllNamed cs

-- No call has the empty text for an id.
abbrev pub IsNamed : List Message → Type 0
IsNamed [] = Unit
IsNamed (m ∷ ms) = AllNamed (calls_in m) × IsNamed ms

IsNamed-reverse_aux : (xs ys : List Message) → IsNamed xs → IsNamed ys → IsNamed (reverse_aux xs ys)
IsNamed-reverse_aux [] ys h k = k
IsNamed-reverse_aux (x ∷ xs) ys h k = IsNamed-reverse_aux xs (x ∷ ys) h.1 (h.0, k)

tool_ids-answered_ids :
    (x : String) (ms : List Message)
    → (x == "") ≡ false
    → contains x (tool_ids ms) ≡ true
    → contains x (answered_ids ms) ≡ true
unfolding answered_ids
tool_ids-answered_ids x [] n h = h
tool_ids-answered_ids x (user m ∷ ms) n h = tool_ids-answered_ids x ms n h
tool_ids-answered_ids x (assistant m ∷ ms) n h = tool_ids-answered_ids x ms n h
tool_ids-answered_ids x (tool m ∷ ms) n h = ground (
  arith,
  tool_ids-answered_ids x ms,
  eq_iff m.tool_call_id x,
  eq_iff x "",
  eq_iff m.tool_call_id "",
)

AllIn-answered :
    (ms : List Message) (cs : List ToolCall)
    → AllNamed cs
    → AllIn (tool_ids ms) cs
    → AllIn (answered_ids ms) cs
AllIn-answered ms [] n h = tt
AllIn-answered ms (c ∷ cs) n h =
    (tool_ids-answered_ids c.call_id ms n.0 h.0, AllIn-answered ms cs n.1 h.1)

Covered-answered :
    (all ms : List Message) → IsNamed ms → Covered (tool_ids all) ms → Covered (answered_ids all) ms
Covered-answered all [] n h = tt
Covered-answered all (m ∷ ms) n h =
    (AllIn-answered all (calls_in m) n.0 h.0, Covered-answered all ms n.1 h.1)

module _ (fresh : ℕ → String) (now : Option String) where
  IsNamed-interruptions :
      (n : ℕ) (cs : List ToolCall) (ms : List Message)
      → IsNamed ms
      → IsNamed (interruptions fresh now n cs ++ ms)
  unfolding interruptions
  IsNamed-interruptions n [] ms h = h
  IsNamed-interruptions n (c ∷ cs) ms h = (tt, IsNamed-interruptions (n + 1) cs ms h)

  repair_loop-IsNamed :
      (before : List Message) (s : Loop)
      → IsNamed before
      → IsNamed s.after
      → IsNamed (repair_loop fresh now before s).after
  unfolding repair_loop
  repair_loop-IsNamed [] s h k = k
  repair_loop-IsNamed (m ∷ before) s h k =
      repair_loop-IsNamed before (repair_at fresh now m (length before) s) h.1
        (h.0, IsNamed-interruptions s.drawn (missing_calls m s.answered) s.after k)

  pub repair-IsNamed :
      (c : Conversation)
      → IsNamed c.messages
      → IsNamed (repair_orphaned_tool_calls fresh now c).0.messages
  repair-IsNamed c h = rw repair-messages (
      repair_loop-IsNamed (reverse c.messages)
        (record { after = []; answered = answered_ids c.messages; drawn = 0; lowest = none })
        (IsNamed-reverse_aux c.messages [] h tt) tt)

  -- Where every call has an id that is not empty, a second repair, with whatever ids and time,
  -- changes nothing and says so.
  repair_twice :
      (fresh' : ℕ → String) (now' : Option String) (c : Conversation)
      → IsNamed c.messages
      → repair_orphaned_tool_calls fresh' now' (repair_orphaned_tool_calls fresh now c).0
        ≡ ((repair_orphaned_tool_calls fresh now c).0, false)
  repair_twice fresh' now' c h =
      let r = (repair_orphaned_tool_calls fresh now c).0 in
      repair-Covered fresh' now' r
        (Covered-answered r.messages r.messages (repair-IsNamed c h) (repair_answers fresh now c))
