-- ===== src/Conversation/Rollback.antt =====
-- Rollback planning of `class Conversation` in src/xarness/conversation.py. Messages are told
-- apart by identity in the source (`m is message`); their ids, drawn by uuid4, stand for it here.
pub mod Plan
pub mod Compaction
use mathlib.Core.List.{reverse}
use xarness.Prelude.{
  ℕ, zero, suc, ◌+◌, ◌-◌, ◌≡◌, Bool, true, false, not, ◌&&◌, ◌||◌, Option, none, some, List, [],
  ◌∷◌, ◌++◌, String, Text, Dict, contains, insert, lookup, is_some, nonempty, ◌==◌, arith, length,
  take, drop, last?, find?, filter, min, map, if◌then◌else◌,
}
use xarness.Conversation.Message.{
  Message, user, Timing, ImageRef, message_id, is_summary, is_user, content, image_refs,
}
use xarness.Conversation.Log.{
  Conversation, TurnCheckpoint, mark_dirty, recompute_visible, visible_messages,
}
use xarness.Conversation.Turns.{reversible_of}

pub record RollbackPlan : Type 0 where
  pub user_text : Text
  pub revert_turns : List TurnCheckpoint
  pub drop_from : ℕ
  pub images : Option (List ImageRef)
  pub compaction : Bool

-- The identity test `m is message`.
abbrev pub same : Message → Message → Bool
same m n = message_id m == message_id n

unfoldable pub message_by_id : String → Conversation → Option Message
message_by_id id c = find? (λ m. message_id m == id) c.messages

abbrev send_stamp : Message → Option String
send_stamp (user m) = elim m.timing.send [ none ↦ none | some t ↦ if t == "" then none else some t ]
send_stamp m = none

-- The first user message with a send time, on the reversed history.
first_send : List Message → Option String
first_send [] = none
first_send (m ∷ ms) = elim (send_stamp m) [ some t ↦ some t | none ↦ first_send ms ]

unfoldable pub last_user_message_at : Conversation → Option String
unfolding first_send
last_user_message_at c = first_send (reverse c.messages)

-- `next((i for i, m in enumerate(ms) if m is message), None)`, counting from `i`.
unfoldable pub index_from : ℕ → String → List Message → Option ℕ
index_from i id [] = none
index_from i id (m ∷ ms) = if message_id m == id then some i else index_from (i + 1) id ms

-- `xs or None`
abbrev or_none {ℓ} : {A : Type ℓ} → List A → Option (List A)
or_none [] = none
or_none (x ∷ xs) = some (x ∷ xs)

unfoldable pub rollback_plan_to : Message → Conversation → Option RollbackPlan
unfolding index_from reversible_of
rollback_plan_to message c =
    if not (is_user message) || is_summary message
    then none
    else elim (index_from 0 (message_id message) c.messages) [
      | none ↦ none
      | some index ↦ some (record {
        user_text = content message;
        revert_turns = reverse (reversible_of c.turns (reverse (drop index c.messages)));
        drop_from = index;
        images = or_none (image_refs message);
        compaction = false;
      })
    ]

abbrev is_last : Message → List Message → Bool
is_last m ms = elim (last? ms) [ none ↦ false | some l ↦ same m l ]

-- The message whose turn `rollback_plan` undoes: the last one with a checkpoint, or else the
-- last visible user message that is not the last message.
unfoldable pub turn_message : Conversation → Option Message
turn_message c =
    let tracked =
      find? (λ m. is_user m && is_some (lookup (message_id m) c.turns)) (reverse c.messages) in
    let visible = visible_messages c in
    elim tracked [
      | some m ↦ some m
      | none ↦
          find? (λ m. is_user m && not (is_summary m) && not (is_last m visible)) (reverse visible)
    ]

abbrev pub summary_is_last : List Message → Bool
summary_is_last ms = elim (last? ms) [ none ↦ false | some m ↦ is_summary m ]

abbrev pub compaction_plan : ℕ → RollbackPlan
compaction_plan n = record {
  user_text = [];
  revert_turns = [];
  drop_from = n - 1;
  images = none;
  compaction = true;
}

-- The plan for the last turn, unless it has no response yet.
unfoldable pub plan_of_turn : Conversation → Option RollbackPlan
unfolding rollback_plan_to turn_message
plan_of_turn c = elim (turn_message c) [
  | none ↦ none
  | some m ↦ if is_last m c.messages then none else rollback_plan_to m c
]

unfoldable pub rollback_plan : Conversation → Option RollbackPlan
unfolding plan_of_turn
rollback_plan c =
    if summary_is_last c.messages
    then some (compaction_plan (length c.messages))
    else plan_of_turn c

abbrev pub ids : List Message → List String
ids [] = []
ids (m ∷ ms) = message_id m ∷ ids ms

unfoldable pub apply_rollback : RollbackPlan → Conversation → Conversation
unfolding mark_dirty recompute_visible
apply_rollback plan c =
    let c1 = record c { messages = take plan.drop_from c.messages } in
    let c2 = mark_dirty (min plan.drop_from (length c1.messages)) c1 in
    let c3 = recompute_visible c2 in
    record c3 { turns = filter (λ e. contains e.0 (ids c3.messages)) c3.turns }
