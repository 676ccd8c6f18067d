-- ===== src/Session/Rounds.antt =====
-- The loop of `_run_turn` of src/xarness/session.py on the controller, and `_execute_call` less the
-- events it emits. The provider's reply to a round and the registry's `call` are parameters; so are
-- the messages that a round's end appends: the steering messages in the queue, and the summary of an
-- automatic compaction. The n-th message that gets a new id has the id `fresh n`.
pub mod Paired
use xarness.Prelude.{
  ℕ, zero, suc, ◌+◌, Bool, true, false, not, Option, none, some, List, [], ◌∷◌, ◌++◌, String, Text,
  nonempty, length, last?, if◌then◌else◌,
}
use xarness.Conversation.Message.{
  Message, user, assistant, tool, UserMessage, ToolCall, ToolResult, calls_of,
}
use xarness.Protocol.{StreamEvent}
use xarness.Controller.{
  Controller, stream_round, save_interrupted_round, record_tool_result, inject_user_message,
  reset_partial,
}

-- The calls that the last message of the history asks for.
abbrev pub asked_calls : Message → List ToolCall
asked_calls (assistant m) = calls_of m.tool_calls
asked_calls m = []

abbrev pub last_calls : List Message → List ToolCall
last_calls ms = elim (last? ms) as (λ o. List ToolCall) [ none ↦ [] | some m ↦ asked_calls m ]

-- What the loop carries: the controller, the world that the tools act on, and the ids drawn.
pub record Turn (World : Type 0) : Type 0 where
  pub controller : Controller
  pub world : World
  pub drawn : ℕ

-- The steering messages, and a summary.
unfoldable pub append_users : List UserMessage → Controller → Controller
unfolding inject_user_message
append_users [] c = c
append_users (m ∷ ms) c = append_users ms (inject_user_message m c)

module _ {World : Type 0} (fresh : ℕ → String) (stamp : ℕ → Option String)
    (call : String → Text → World → ToolResult × World) where
  -- `_execute_call`
  unfoldable pub execute_call : ToolCall → Turn World → Turn World
  unfolding record_tool_result
  execute_call c t =
      let (result, world) = call c.name c.arguments_json t.world in
      record {
        controller =
            record_tool_result (fresh t.drawn) c.call_id result (stamp t.drawn)
              (stamp (t.drawn + 1)) t.controller;
        world = world;
        drawn = t.drawn + 1;
      }

  unfoldable pub execute_calls : List ToolCall → Turn World → Turn World
  unfolding execute_call
  execute_calls [] t = t
  execute_calls (c ∷ cs) t = execute_calls cs (execute_call c t)

  module _ (reply : Controller → List (ℕ × StreamEvent))
      (at_boundary : Controller → List UserMessage) where
    -- A round's stream, and what is kept of it if it broke off. A round gets one message at most, and
    -- so one id.
    unfoldable pub stream_one : Turn World → Turn World
    unfolding stream_round save_interrupted_round
    stream_one t =
        let streamed =
          (stream_round (fresh t.drawn) (stamp t.drawn) (stamp (t.drawn + 1)) (reply t.controller)
            t.controller).1 in
        let (saved, added) = save_interrupted_round (fresh t.drawn) streamed in
        record t { controller = saved; drawn = t.drawn + 1 }

    -- The end of a round: the calls it asked for, then the messages of its end.
    unfoldable pub end_round : List ToolCall → Turn World → Turn World
    unfolding execute_calls append_users
    end_round calls t =
        let t' = execute_calls calls t in
        record t' {
          controller = reset_partial (append_users (at_boundary t'.controller) t'.controller);
        }

    -- The first rounds of the loop, and whether it came to its end within them.
    unfoldable pub run_rounds : ℕ → Turn World → Turn World × Bool
    unfolding stream_one end_round
    run_rounds zero t = (t, false)
    run_rounds (suc rounds) t =
        let streamed = stream_one t in
        let calls = last_calls streamed.controller.conversation.messages in
        let later = run_rounds rounds (end_round calls streamed) in
        if nonempty calls then later else (streamed, true)
