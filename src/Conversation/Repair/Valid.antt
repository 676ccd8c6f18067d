-- ===== src/Conversation/Repair/Valid.antt =====
-- `repair_orphaned_tool_calls` of src/xarness/conversation.py as a whole.
use mathlib.Core.List.{reverse, reverse_aux, reverse_aux-reverse_aux-nil, Sublistᴰ}
use xarness.Prelude.{
  ℕ, ◌≡◌, refl, sym, ◌∙◌, true, false, not, Option, none, some, List, [], ◌∷◌, String, contains,
  arith, length, filter,
}
use xarness.Conversation.Message.{Message, user, assistant, tool, ToolCall, calls_of}
use xarness.Conversation.Log.{Conversation}
use xarness.Conversation.Indexed.{IsIndexed}
use xarness.Conversation.Repair.{
  Loop, answered_ids, missing_calls, repair_at, repair_loop, finish_repair,
  repair_orphaned_tool_calls,
}
use xarness.Conversation.Repair.Answered.{
  Covered, AllIn, calls_in, tool_ids, IsCovering, Covered-mono, repair_loop-IsCovering,
}
use xarness.Conversation.Repair.Kept.{AtLowest, Extends, repair_loop-Extends}

answered_ids-tool_ids :
    (x : String) (ms : List Message)
    → contains x (answered_ids ms) ≡ true
    → contains x (tool_ids ms) ≡ true
unfolding answered_ids
answered_ids-tool_ids x [] h = h
answered_ids-tool_ids x (user m ∷ ms) h = answered_ids-tool_ids x ms h
answered_ids-tool_ids x (assistant m ∷ ms) h = answered_ids-tool_ids x ms h
answered_ids-tool_ids x (tool m ∷ ms) h = ground (arith, answered_ids-tool_ids x ms)

finish_repair-messages :
    (c : Conversation) (ms : List Message) (l : Option ℕ)
    → AtLowest 0 c.messages ms l
    → (finish_repair c ms l).0.messages ≡ ms
unfolding finish_repair
finish_repair-messages c ms none h = sym h
finish_repair-messages c ms (some l) h = refl

finish_repair-IsIndexed :
    (c : Conversation) (ms : List Message) (l : Option ℕ)
    → IsIndexed c
    → IsIndexed (finish_repair c ms l).0
unfolding finish_repair
finish_repair-IsIndexed c ms none h = h
finish_repair-IsIndexed c ms (some l) h = refl

-- The repair of a covered conversation finds nothing.
missing_calls-eq-nil :
    (a : List String) (cs : List ToolCall)
    → AllIn a cs
    → filter (λ c. not (contains c.call_id a)) cs ≡ []
missing_calls-eq-nil a [] h = refl
missing_calls-eq-nil a (c ∷ cs) h = rw h.0 (missing_calls-eq-nil a cs h.1)

missing_calls_covered :
    (a : List String) (m : Message) → AllIn a (calls_in m) → missing_calls m a ≡ []
unfolding missing_calls
missing_calls_covered a (user m) h = refl
missing_calls_covered a (assistant m) h = missing_calls-eq-nil a (calls_of m.tool_calls) h
missing_calls_covered a (tool m) h = refl

Covered-reverse_aux :
    (a : List String) (xs ys : List Message)
    → Covered a xs
    → Covered a ys
    → Covered a (reverse_aux xs ys)
Covered-reverse_aux a [] ys h k = k
Covered-reverse_aux a (x ∷ xs) ys h k = Covered-reverse_aux a xs (x ∷ ys) h.1 (h.0, k)

module _ (fresh : ℕ → String) (now : Option String) where
  repair_at-lowest :
      (m : Message) (base : ℕ) (s : Loop)
      → AllIn s.answered (calls_in m)
      → ((repair_at fresh now m base s).lowest ≡ s.lowest)
        × ((repair_at fresh now m base s).answered ≡ s.answered)
  unfolding repair_at
  repair_at-lowest m base s h = rw (missing_calls_covered s.answered m h) (refl, refl)

  repair_loop-lowest :
      (before : List Message) (s : Loop)
      → Covered s.answered before
      → (repair_loop fresh now before s).lowest ≡ s.lowest
  unfolding repair_loop
  repair_loop-lowest [] s h = refl
  repair_loop-lowest (m ∷ before) s h =
      let (low, ans) = repair_at-lowest m (length before) s h.0 in
      repair_loop-lowest before (repair_at fresh now m (length before) s) (rw ans h.1) ∙ low

module _ (fresh : ℕ → String) (now : Option String) (c : Conversation) where
  abbrev start : Loop
  start = record { after = []; answered = answered_ids c.messages; drawn = 0; lowest = none }

  abbrev final : Loop
  final = repair_loop fresh now (reverse c.messages) start

  reversed : reverse_aux (reverse c.messages) [] ≡ c.messages
  reversed = reverse_aux-reverse_aux-nil c.messages []

  final-Extends : Extends 0 c.messages final
  final-Extends = rw reversed at (
      repair_loop-Extends fresh now (reverse c.messages) [] start
        (record { kept = Sublistᴰ.slnil; unmoved = refl }))

  final-IsCovering : IsCovering [] final
  final-IsCovering =
      repair_loop-IsCovering fresh now (reverse c.messages) start (record {
        covered = tt;
        present = λ x h. rw reversed (answered_ids-tool_ids x c.messages h);
      })

  pub repair-messages : (repair_orphaned_tool_calls fresh now c).0.messages ≡ final.after
  unfolding repair_orphaned_tool_calls
  repair-messages = finish_repair-messages c final.after final.lowest final-Extends.unmoved

  pub repair-IsIndexed : IsIndexed c → IsIndexed (repair_orphaned_tool_calls fresh now c).0
  unfolding repair_orphaned_tool_calls
  repair-IsIndexed h = finish_repair-IsIndexed c final.after final.lowest h

  -- After the repair every call of every assistant message is answered by a tool message.
  pub repair_answers :
      Covered
        (tool_ids (repair_orphaned_tool_calls fresh now c).0.messages)
        (repair_orphaned_tool_calls fresh now c).0.messages
  repair_answers = rw repair-messages (
      Covered-mono final.answered (tool_ids final.after) final.after final-IsCovering.present
        final-IsCovering.covered)

  -- The repair drops and reorders no message.
  repair-sublist : Sublistᴰ c.messages (repair_orphaned_tool_calls fresh now c).0.messages
  repair-sublist = rw repair-messages final-Extends.kept

  -- Where every call is answered the repair changes nothing and says so.
  pub repair-Covered :
      Covered (answered_ids c.messages) c.messages
      → repair_orphaned_tool_calls fresh now c ≡ (c, false)
  unfolding repair_orphaned_tool_calls finish_repair
  repair-Covered h = rw (
      repair_loop-lowest fresh now (reverse c.messages) start
        (Covered-reverse_aux (answered_ids c.messages) c.messages [] h tt))

  -- The repair ends in `finish_repair`, with the messages unmoved up to the lowest insertion.
  pub repair_by_finish :
      (ms : List Message) × (l : Option ℕ) × (repair_orphaned_tool_calls fresh now c
        ≡ finish_repair c ms l)
      × AtLowest 0 c.messages ms l
  unfolding repair_orphaned_tool_calls
  repair_by_finish = (final.after, final.lowest, refl, final-Extends.unmoved)
