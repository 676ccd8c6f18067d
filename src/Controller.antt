-- ===== src/Controller.antt =====
-- controller.py: `ChatController`, the round runner over a `Conversation`. The ids of new messages
-- and the wall-clock stamps are arguments; the monotonic clock is read in ticks.
pub mod Streaming
pub mod Totals
use xarness.Prelude.{
  ℕ, ◌+◌, ◌-◌, ◌/◌, ◌≡◌, Bool, true, false, not, ◌&&◌, ◌||◌, Option, none, some, List, [], ◌∷◌,
  ◌++◌, String, Text, nonempty, length, eqb, is_some, if◌then◌else◌,
}
use xarness.Conversation.Message.{
  Message, user, assistant, tool, UserMessage, AssistantMessage, ToolMessage, ToolCall, ToolResult,
  Usage, no_usage, Timing, no_timing, content,
}
use xarness.Conversation.Log.{Conversation, add, visible_messages}
use xarness.Conversation.Turns
use xarness.Protocol.{
  StreamEvent, processing_started, reasoning_delta, content_delta, tool_call_started,
  tool_call_arguments_delta, tool_call_arguments_done, round_complete, stream_error,
  PartialToolCall, PartialRound, no_round, update_call,
}
use xarness.Compaction.{chars_per_token}

pub record Controller : Type 0 where
  pub conversation : Conversation
  pub usage_total : Usage
  pub last_usage : Usage
  pub partial_round : PartialRound

abbrev pub init : Conversation → Controller
init c = record {
  conversation = c;
  usage_total = no_usage;
  last_usage = no_usage;
  partial_round = no_round;
}

-- A round's usage added to the total; the total is never marked as approximate.
unfoldable pub fold_usage : Usage → Controller → Controller
fold_usage usage c = record c {
  usage_total = record {
    input_tokens = c.usage_total.input_tokens + usage.input_tokens;
    output_tokens = c.usage_total.output_tokens + usage.output_tokens;
    cached_tokens = c.usage_total.cached_tokens + usage.cached_tokens;
    reasoning_tokens = c.usage_total.reasoning_tokens + usage.reasoning_tokens;
    approximate = false;
  };
  last_usage = usage;
}

-- `sum(len(message.content or "") for message in ms)`
unfoldable pub prompt_chars : List Message → ℕ
prompt_chars [] = 0
prompt_chars (m ∷ ms) = length (content m) + prompt_chars ms

unfoldable pub estimate_usage : Text → Controller → Usage
unfolding prompt_chars
estimate_usage answer c = record {
  input_tokens = prompt_chars (visible_messages c.conversation) / chars_per_token;
  output_tokens = length answer / chars_per_token;
  cached_tokens = 0;
  reasoning_tokens = 0;
  approximate = true;
}

-- `text or None`
abbrev pub text_or_none : Text → Option Text
text_or_none [] = none
text_or_none (c ∷ cs) = some (c ∷ cs)

-- `calls or None`
abbrev pub calls_or_none : List ToolCall → Option (List ToolCall)
calls_or_none [] = none
calls_or_none (c ∷ cs) = some (c ∷ cs)

-- `begin_turn` up to its first round.
unfoldable pub begin_turn : UserMessage → Option String → Controller → Controller
begin_turn message before_tree c = record c {
  conversation = Turns.begin_turn message before_tree (add (user message) c.conversation);
}

unfoldable pub record_tool_result :
    String → String → ToolResult → Option String → Option String → Controller → Controller
record_tool_result fresh call_id result start_time end_time c = record c {
  conversation =
      add
        (tool (record {
          id = fresh;
          timing = record {
            send = none;
            start = start_time;
            stop = end_time;
            reasoning_seconds = none;
          };
          tool_call_id = call_id;
          content = result.content;
          status = result.status;
        }))
        c.conversation;
}

abbrev pub interrupted_message : String → PartialRound → Message
interrupted_message fresh p = assistant (record {
  id = fresh;
  timing = no_timing;
  content = p.content;
  reasoning = text_or_none p.reasoning;
  usage = none;
  tool_calls = none;
  interrupted = true;
})

-- The controller, and whether a message was added.
unfoldable pub save_interrupted_round : String → Controller → Controller × Bool
save_interrupted_round fresh c =
    let partial = c.partial_round in
    let c1 = record c { partial_round = record partial { content = []; reasoning = [] } } in
    if not (nonempty partial.content) && not (nonempty partial.reasoning) then (c1, false) else (
      record c1 { conversation = add (interrupted_message fresh partial) c1.conversation },
      true,
    )

unfoldable pub reset_partial : Controller → Controller
reset_partial c = record c { partial_round = no_round }

unfoldable pub inject_user_message : UserMessage → Controller → Controller
inject_user_message message c = record c { conversation = add (user message) c.conversation }

-- The local variables of `_stream_round` beside the controller.
pub record Round : Type 0 where
  pub controller : Controller
  pub done_calls : List ToolCall
  pub first_reasoning_at : Option ℕ
  pub first_answer_at : Option ℕ

unfoldable pub start_round : Controller → Round
start_round c = record {
  controller = record c { partial_round = no_round };
  done_calls = [];
  first_reasoning_at = none;
  first_answer_at = none;
}

abbrev pub set_partial : (PartialRound → PartialRound) → Round → Round
set_partial f r = record r {
  controller = record r.controller { partial_round = f r.controller.partial_round };
}

-- The clock reading that a first event leaves.
abbrev pub first_at : Option ℕ → ℕ → Option ℕ
first_at none now = some now
first_at (some t) now = some t

-- `first_answer_at or time.monotonic()`, less the first reasoning time. A reading of 0 is false.
abbrev pub reasoning_time : Option ℕ → Option ℕ → ℕ → Option ℕ
reasoning_time none answer now = none
reasoning_time (some t) none now = some (now - t)
reasoning_time (some t) (some a) now = some ((if eqb a 0 then now else a) - t)

abbrev pub usage_or : Option Usage → Usage → Usage
usage_or none u = u
usage_or (some u) v = u

-- The message of a complete round.
unfoldable pub round_message :
    String → Option String → Option String → ℕ → Usage → Round → AssistantMessage
round_message fresh started_at ended_at now usage r = record {
  id = fresh;
  timing = record {
    send = none;
    start = started_at;
    stop = ended_at;
    reasoning_seconds = reasoning_time r.first_reasoning_at r.first_answer_at now;
  };
  content = r.controller.partial_round.content;
  reasoning = text_or_none r.controller.partial_round.reasoning;
  usage = some usage;
  tool_calls = calls_or_none r.done_calls;
  interrupted = false;
}

module _ (fresh : String) (started_at ended_at : Option String) where
  unfoldable pub complete_round : ℕ → Option Usage → Round → StreamEvent × Round
  unfolding estimate_usage fold_usage round_message
  complete_round now reported r =
      let c = r.controller in
      let usage = usage_or reported (estimate_usage c.partial_round.content c) in
      let message = assistant (round_message fresh started_at ended_at now usage r) in
      let cleared = record c.partial_round { reasoning = []; content = [] } in
      let folded = fold_usage usage (record c { partial_round = cleared }) in
      (
        round_complete (some usage) (nonempty r.done_calls),
        record r { controller = record folded { conversation = add message folded.conversation } },
      )

  -- The body of the loop of `_stream_round` at the clock reading `now`: the event that it passes
  -- on, and the round.
  unfoldable pub on_event : ℕ → StreamEvent → Round → StreamEvent × Round
  unfolding complete_round
  on_event now (reasoning_delta t) r = (
    reasoning_delta t,
    record (set_partial (λ p. record p { reasoning = p.reasoning ++ t }) r) {
      first_reasoning_at = first_at r.first_reasoning_at now;
    },
  )
  on_event now (content_delta t) r = (
    content_delta t,
    record (set_partial (λ p. record p { content = p.content ++ t }) r) {
      first_answer_at = first_at r.first_answer_at now;
    },
  )
  on_event now (tool_call_started id name) r = (
    tool_call_started id name,
    record (set_partial
        (λ p. record p {
          tool_calls =
              p.tool_calls
              ++ record { call_id = id; name = name; arguments = []; content = []; status = none }
                ∷ [];
        })
        r) { first_answer_at = first_at r.first_answer_at now },
  )
  on_event now (tool_call_arguments_delta id t) r = (
    tool_call_arguments_delta id t,
    set_partial
        (λ p. record p {
          tool_calls = update_call id (λ c. record c { arguments = c.arguments ++ t }) p.tool_calls;
        })
        r,
  )
  on_event now (tool_call_arguments_done id name args) r = (
    tool_call_arguments_done id name args,
    record (set_partial
        (λ p. record p {
          tool_calls = update_call id (λ c. record c { arguments = args }) p.tool_calls;
        })
        r) {
          done_calls =
              r.done_calls ++ record { call_id = id; name = name; arguments_json = args } ∷ [];
        },
  )
  on_event now (round_complete reported has_tool_calls) r = complete_round now reported r
  on_event now processing_started r = (processing_started, r)
  on_event now (stream_error message) r = (stream_error message, r)

  -- The loop over the client's events, each with the clock reading at which it came.
  unfoldable pub run_events : List (ℕ × StreamEvent) → Round → List StreamEvent × Round
  unfolding on_event
  run_events [] r = ([], r)
  run_events ((now, e) ∷ es) r =
      let (out, r') = on_event now e r in let (later, r'') = run_events es r' in (out ∷ later, r'')

  -- `_stream_round`
  unfoldable pub stream_round : List (ℕ × StreamEvent) → Controller → List StreamEvent × Controller
  unfolding run_events start_round
  stream_round es c = let (out, r) = run_events es (start_round c) in (out, r.controller)
