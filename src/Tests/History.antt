-- ===== src/Tests/History.antt =====
-- The theorems on conversation.py and compaction.py at concrete inputs.
use xarness.Prelude.{
  ◌≡◌, refl, true, false, none, some, List, [], ◌∷◌, ◌++◌, codes, contains, lookup, length,
}
use xarness.Conversation.Message.{user}
use xarness.Conversation.Log.{Conversation, add, last_summary, summary_below, visible_messages}
use xarness.Conversation.Indexed.{IsIndexed}
use xarness.Conversation.Turns.{turn_checkpoints}
use xarness.Conversation.Rollback.{
  RollbackPlan, rollback_plan, rollback_plan_to, apply_rollback, ids,
}
use xarness.Conversation.Rollback.Plan.{before_id, rollback_to_removes}
use xarness.Conversation.Rollback.Compaction.{rollback-compaction}
use xarness.Conversation.Repair.{repair_orphaned_tool_calls}
use xarness.Conversation.Repair.Answered.{Covered, tool_ids}
use xarness.Conversation.Repair.Valid.{repair_answers}
use xarness.Conversation.Mutation.{Mutation, append, rollback, repair, lock, mutate_all}
use xarness.Conversation.Mutation.Kept.{mutate_all-IsIndexed}
use xarness.Compaction.{
  context_tokens, compact, compacted, CompactionResult, summary_message, summary_prefix,
}
use xarness.Protocol.{content_delta, round_complete}
use xarness.Tests.Data.{question, usage, answer, summary, edited, chat, draw}

chat-IsIndexed : IsIndexed chat
unfolding last_summary summary_below
chat-IsIndexed = refl

repair-chat : length (repair_orphaned_tool_calls draw none chat).0.messages ≡ 3
unfolding repair_orphaned_tool_calls
repair-chat = refl

repair_answers_example :
    Covered
      (tool_ids (repair_orphaned_tool_calls draw none chat).0.messages)
      (repair_orphaned_tool_calls draw none chat).0.messages
repair_answers_example = repair_answers draw none chat

abbrev plan : RollbackPlan
plan = record {
  user_text = codes "hi";
  revert_turns = edited ∷ [];
  drop_from = 0;
  images = none;
  compaction = false;
}

chat-plan : rollback_plan_to (user question) chat ≡ some plan
unfolding rollback_plan_to
chat-plan = refl

rollback_to_removes_example :
    (contains "u1" (ids (apply_rollback plan chat).messages) ≡ false)
    × (lookup "u1" (apply_rollback plan chat).turns ≡ none)
    × ((apply_rollback plan chat).messages ≡ before_id "u1" chat.messages)
    × (turn_checkpoints chat ≡ turn_checkpoints (apply_rollback plan chat) ++ edited ∷ [])
rollback_to_removes_example = rollback_to_removes (user question) chat plan chat-plan

rollback-compaction_example :
    (p : RollbackPlan) × (rollback_plan (add summary chat) ≡ some p)
    × (p.revert_turns ≡ [])
    × ((apply_rollback p (add summary chat)).messages ≡ chat.messages)
    × (visible_messages (apply_rollback p (add summary chat)) ≡ visible_messages chat)
rollback-compaction_example = rollback-compaction summary chat refl chat-IsIndexed

abbrev changes : List Mutation
changes = append summary ∷ repair draw none ∷ append answer ∷ rollback plan ∷ lock "t2" ∷ []

mutate_all-IsIndexed_example : IsIndexed (mutate_all changes chat)
mutate_all-IsIndexed_example = mutate_all-IsIndexed changes chat chat-IsIndexed

-- 10 + (4 - 1) reported tokens and 6 / 4 estimated.
context_tokens-chat : context_tokens (user question ∷ answer ∷ summary ∷ []) false ≡ 14
unfolding context_tokens
context_tokens-chat = refl

abbrev handoff : CompactionResult
handoff = record {
  summary = codes "done";
  usage = some usage;
  before_tokens = 14;
  after_tokens = 1;
}

abbrev compacted_chat : Conversation
compacted_chat = add (summary_message "s2" (summary_prefix ++ (codes "\n\n" ++ codes "done"))) chat

compact-chat :
    compact
      (λ _. content_delta (codes " done ") ∷ round_complete (some usage) false ∷ [])
      (codes "?")
      "s2"
      chat
      none
      true
      none
    ≡ compacted handoff compacted_chat
unfolding compact
compact-chat = refl
