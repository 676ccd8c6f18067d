-- ===== src/Conversation/Repair.antt =====
-- `repair_orphaned_tool_calls` of src/xarness/conversation.py. The ids that uuid4 draws for the
-- new messages are a parameter: `fresh n` is the n-th draw.
pub mod Answered
pub mod Kept
pub mod Valid
pub mod Again
use xarness.Prelude.{
  ℕ, zero, suc, ◌+◌, ◌≡◌, Bool, true, false, not, ◌&&◌, ◌||◌, Option, none, some, List, [], ◌∷◌,
  ◌++◌, String, Text, codes, contains, is_some, nonempty, ◌==◌, arith, length, filter, min, map,
  if◌then◌else◌,
}
use mathlib.Core.List.{reverse}
use xarness.Conversation.Message.{
  Message, user, assistant, tool, Timing, ToolCall, ToolStatus, calls_of,
}
use xarness.Conversation.Log.{Conversation, mark_dirty, recompute_visible}

-- `{m.tool_call_id for m in messages if m.role == "tool" and m.tool_call_id}`
unfoldable pub answered_ids : List Message → List String
answered_ids [] = []
answered_ids (tool m ∷ ms) =
    let rest = answered_ids ms in if m.tool_call_id == "" then rest else m.tool_call_id ∷ rest
answered_ids (m ∷ ms) = answered_ids ms

-- `[c for c in message.tool_calls if c.call_id not in answered]`
unfoldable pub missing_calls : Message → List String → List ToolCall
missing_calls (assistant m) answered =
    filter (λ c. not (contains c.call_id answered)) (calls_of m.tool_calls)
missing_calls m answered = []

abbrev pub call_ids : List ToolCall → List String
call_ids [] = []
call_ids (c ∷ cs) = c.call_id ∷ call_ids cs

-- The state of the loop. The messages before the index stand last first, apart from those from
-- the index on, so that an insertion behind the index is one at the front.
pub record Loop : Type 0 where
  pub after : List Message
  pub answered : List String
  pub drawn : ℕ
  pub lowest : Option ℕ

-- The end of the loop: with an insertion the indices are brought up to date.
unfoldable pub finish_repair : Conversation → List Message → Option ℕ → Conversation × Bool
unfolding mark_dirty recompute_visible
finish_repair c messages none = (c, false)
finish_repair c messages (some index) =
    (mark_dirty index (recompute_visible (record c { messages = messages })), true)

module _ (fresh : ℕ → String) (now : Option String) where
  -- One synthetic answer for each missing call.
  unfoldable pub interruptions : ℕ → List ToolCall → List Message
  interruptions n [] = []
  interruptions n (c ∷ cs) =
      tool (record {
        id = fresh n;
        timing = record { send = none; start = none; stop = now; reasoning_seconds = none };
        tool_call_id = c.call_id;
        content = codes "interrupted";
        status = ToolStatus.interrupted;
      })
      ∷ interruptions (n + 1) cs

  -- The body of the loop at the index `index` of `m`.
  unfoldable pub repair_at : Message → ℕ → Loop → Loop
  unfolding missing_calls interruptions
  repair_at m index s =
      let missing = missing_calls m s.answered in
      record {
        after = m ∷ (interruptions s.drawn missing ++ s.after);
        answered = call_ids missing ++ s.answered;
        drawn = s.drawn + length missing;
        lowest =
            if nonempty missing
            then some (elim s.lowest [ none ↦ index | some l ↦ min l index ])
            else s.lowest;
      }

  unfoldable pub repair_loop : List Message → Loop → Loop
  unfolding repair_at
  repair_loop [] s = s
  repair_loop (m ∷ before) s = repair_loop before (repair_at m (length before) s)

  -- The conversation, and whether anything was inserted.
  unfoldable pub repair_orphaned_tool_calls : Conversation → Conversation × Bool
  unfolding repair_loop answered_ids finish_repair
  repair_orphaned_tool_calls c =
      let s =
        repair_loop (reverse c.messages)
          (record { after = []; answered = answered_ids c.messages; drawn = 0; lowest = none }) in
      finish_repair c s.after s.lowest
