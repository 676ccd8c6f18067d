-- ===== src/Conversation/Mutation.antt =====
-- The changes that a session makes to its `Conversation` (src/xarness/conversation.py), as data,
-- and what each one keeps.
pub mod Kept
use xarness.Prelude.{ℕ, Option, none, some, List, [], ◌∷◌, String}
use xarness.Conversation.Message.{Message, UserMessage}
use xarness.Conversation.Log.{Conversation, add}
use xarness.Conversation.Turns
use xarness.Conversation.Turns.{close_crashed_turns, lock_turns}
use xarness.Conversation.Rollback.{RollbackPlan, apply_rollback}
use xarness.Conversation.Repair.{repair_orphaned_tool_calls}

pub data Mutation : Type 0 where
  append : Message → Mutation
  rollback : RollbackPlan → Mutation
  repair : (ℕ → String) → Option String → Mutation
  begin_turn : UserMessage → Option String → Mutation
  finish_turn : Option (Option String) → Mutation
  close_crashed : Mutation
  lock : String → Mutation

unfoldable pub mutate : Mutation → Conversation → Conversation
mutate (append m) c = add m c
mutate (rollback plan) c = apply_rollback plan c
mutate (repair fresh now) c = (repair_orphaned_tool_calls fresh now c).0
mutate (begin_turn m tree) c = Turns.begin_turn m tree c
mutate (finish_turn snapshot) c = Turns.finish_turn snapshot c
mutate close_crashed c = (close_crashed_turns c).0
mutate (lock tree) c = lock_turns tree c

unfoldable pub mutate_all : List Mutation → Conversation → Conversation
unfolding mutate
mutate_all [] c = c
mutate_all (μ ∷ μs) c = mutate_all μs (mutate μ c)
