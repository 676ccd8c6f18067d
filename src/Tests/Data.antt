-- ===== src/Tests/Data.antt =====
-- A small conversation: a turn with an unanswered tool call, and a summary.
use xarness.Prelude.{ℕ, true, false, none, some, [], ◌∷◌, String, codes}
use xarness.Conversation.Message.{Message, user, assistant, UserMessage, text, Usage, no_timing}
use xarness.Conversation.Log.{Conversation, TurnCheckpoint}

abbrev pub question : UserMessage
question = record {
  id = "u1";
  timing = no_timing;
  parts = text (codes "hi") ∷ [];
  is_summary = false;
}

abbrev pub usage : Usage
usage = record {
  input_tokens = 10;
  output_tokens = 4;
  cached_tokens = 0;
  reasoning_tokens = 1;
  approximate = false;
}

abbrev pub answer : Message
answer = assistant (record {
  id = "a1";
  timing = no_timing;
  content = [];
  reasoning = none;
  usage = some usage;
  tool_calls =
      some (record { call_id = "call_0"; name = "run_bash"; arguments_json = codes "{}" } ∷ []);
  interrupted = false;
})

abbrev pub summary : Message
summary = user (record {
  id = "s1";
  timing = no_timing;
  parts = text (codes "so far") ∷ [];
  is_summary = true;
})

abbrev pub edited : TurnCheckpoint
edited = record { before_tree = some "t0"; after_tree = some "t1"; closed = true }

abbrev pub chat : Conversation
chat = record {
  messages = user question ∷ answer ∷ [];
  turns = ("u1", edited) ∷ [];
  visible_from = 0;
  dirty_from = some 1;
}

abbrev pub clean : Conversation
clean = record { messages = []; turns = []; visible_from = 0; dirty_from = none }

abbrev pub draw : ℕ → String
draw n = "fresh"
