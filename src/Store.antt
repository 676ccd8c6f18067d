-- ===== src/Store.antt =====
-- session_store.py: the saved sessions, with the message rows of one session as a table in the
-- order of its key, and the write that replaces rows from a watermark on. Rows hold the messages
-- themselves: the JSON of a message, which pydantic writes and reads, is not modelled.
pub mod Rows
pub mod Sync
use xarness.Prelude.{
  ℕ, zero, suc, ◌+◌, ◌≡◌, refl, Bool, true, false, Option, none, some, List, [], ◌∷◌, ◌++◌, String,
  Dict, arith, length, drop, min, filter, ltb, eqb, if◌then◌else◌,
}
use xarness.Conversation.Message.{Message, Usage}
use xarness.Conversation.Log.{Conversation, TurnCheckpoint, take_dirty_from, recompute_visible}

abbrev pub Rows : Type 0
Rows = List (ℕ × Message)

-- `DELETE FROM messages WHERE name = ? AND seq >= ?`
unfoldable pub delete_from : ℕ → Rows → Rows
delete_from n rows = filter (λ row. ltb row.0 n) rows

-- `INSERT OR REPLACE INTO messages …`: the rows stay in the order of the key.
unfoldable pub insert_or_replace : ℕ → Message → Rows → Rows
insert_or_replace seq m [] = (seq, m) ∷ []
insert_or_replace seq m ((k, x) ∷ rows) =
    if eqb k seq
    then (seq, m) ∷ rows
    else if ltb seq k
    then (seq, m) ∷ (k, x) ∷ rows
    else (k, x) ∷ insert_or_replace seq m rows

-- `executemany` over the payload's messages, numbered from `seq`.
unfoldable pub insert_all : ℕ → List Message → Rows → Rows
unfolding insert_or_replace
insert_all seq [] rows = rows
insert_all seq (m ∷ ms) rows = insert_all (seq + 1) ms (insert_or_replace seq m rows)

-- The parts of the state row that the rest of the model reads.
pub record StateRow : Type 0 where
  pub schema : ℕ
  pub turns : Dict TurnCheckpoint
  pub usage_total : Usage
  pub last_usage : Usage

abbrev pub schema_version : ℕ
schema_version = 4

pub record Payload : Type 0 where
  pub state : StateRow
  pub messages : List Message
  pub from_seq : ℕ

pub record Saved : Type 0 where
  pub rows : Rows
  pub state : Option StateRow

-- `serialize_state`, on the conversation and the totals beside it.
unfoldable pub serialize_state : Conversation → Usage → Usage → ℕ → Payload
serialize_state c usage_total last_usage from_seq =
    let start = min from_seq (length c.messages) in
    record {
      state = record {
        schema = schema_version;
        turns = c.turns;
        usage_total = usage_total;
        last_usage = last_usage;
      };
      messages = drop start c.messages;
      from_seq = start;
    }

unfoldable pub write_state : Payload → Saved → Saved
unfolding delete_from insert_all
write_state p saved = record {
  rows = insert_all p.from_seq p.messages (delete_from p.from_seq saved.rows);
  state = some p.state;
}

pub data LoadError : Type 0 where
  no_saved_session unsupported_schema : LoadError

pub record StoredSession : Type 0 where
  pub conversation : Conversation
  pub usage_total : Usage
  pub last_usage : Usage

pub data Loaded : Type 0 where
  ok : StoredSession → Loaded
  err : LoadError → Loaded

-- `SELECT data FROM messages WHERE name = ? ORDER BY seq`
unfoldable pub select_messages : Rows → List Message
select_messages [] = []
select_messages ((k, m) ∷ rows) = m ∷ select_messages rows

unfoldable pub load_state : Saved → Loaded
unfolding select_messages recompute_visible
load_state saved = elim saved.state [
  | none ↦ err no_saved_session
  | some row ↦
      if eqb row.schema schema_version
      then ok (record {
        conversation = recompute_visible (record {
          messages = select_messages saved.rows;
          turns = row.turns;
          visible_from = 0;
          dirty_from = none;
        });
        usage_total = row.usage_total;
        last_usage = row.last_usage;
      })
      else err unsupported_schema
]
