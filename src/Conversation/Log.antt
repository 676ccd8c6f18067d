-- ===== src/Conversation/Log.antt =====
-- `class Conversation` of src/xarness/conversation.py: the state, and the mutators of the
-- append-only history with its two derived indices.
use xarness.Prelude.{
  ℕ, zero, suc, Bool, false, Option, none, some, List, [], ◌∷◌, ◌++◌, String, Dict, length, take,
  drop, min, if◌then◌else◌,
}
use xarness.Conversation.Message.{Message, is_summary}

-- gitwork.py `TurnCheckpoint`
pub record TurnCheckpoint : Type 0 where
  pub before_tree : Option String
  pub after_tree : Option String
  pub closed : Bool

pub record Conversation : Type 0 where
  pub messages : List Message
  pub turns : Dict TurnCheckpoint
  pub visible_from : ℕ
  pub dirty_from : Option ℕ

abbrev pub empty : Conversation
empty = record { messages = []; turns = []; visible_from = 0; dirty_from = none }

abbrev pub lowest : ℕ → Option ℕ → ℕ
lowest index none = index
lowest index (some d) = min d index

unfoldable pub mark_dirty : ℕ → Conversation → Conversation
mark_dirty index c = record c { dirty_from = some (lowest index c.dirty_from) }

unfoldable pub add : Message → Conversation → Conversation
unfolding mark_dirty
add message c =
    let index = length c.messages in
    record (mark_dirty index c) {
      visible_from = if is_summary message then index else c.visible_from;
      messages = c.messages ++ message ∷ [];
    }

abbrev pub watermark : ℕ → Option ℕ → ℕ
watermark n none = n
watermark n (some d) = d

-- The watermark, and the conversation with it reset.
unfoldable pub take_dirty_from : Conversation → ℕ × Conversation
take_dirty_from c = (watermark (length c.messages) c.dirty_from, record c { dirty_from = none })

unfoldable pub mark_clean : Conversation → Conversation
mark_clean c = record c { dirty_from = none }

abbrev pub summary_at : List Message → ℕ → Bool
summary_at [] i = false
summary_at (m ∷ ms) zero = is_summary m
summary_at (m ∷ ms) (suc i) = summary_at ms i

-- The first summary among the indices i - 1 down to 0, or 0.
unfoldable pub summary_below : List Message → ℕ → ℕ
summary_below ms zero = 0
summary_below ms (suc i) = let rest = summary_below ms i in if summary_at ms i then i else rest

unfoldable pub last_summary : List Message → ℕ
last_summary ms = summary_below ms (length ms)

unfoldable pub recompute_visible : Conversation → Conversation
unfolding last_summary
recompute_visible c = record c { visible_from = last_summary c.messages }

abbrev pub visible_messages : Conversation → List Message
visible_messages c = drop c.visible_from c.messages

abbrev pub history_messages : Conversation → List Message
history_messages c = take c.visible_from c.messages
