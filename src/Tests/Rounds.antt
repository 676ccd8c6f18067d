-- ===== src/Tests/Rounds.antt =====
-- The theorems on client.py and controller.py at concrete inputs.
use xarness.Prelude.{
  ℕ, ◌≡◌, refl, true, false, none, some, List, [], ◌∷◌, ◌++◌, Text, codes, eqb, if◌then◌else◌,
}
use xarness.Prelude.Decimal.{decimal_string}
use xarness.Conversation.Message.{assistant, AssistantMessage}
use xarness.Conversation.Log.{add}
use xarness.Protocol.{
  StreamEvent, processing_started, reasoning_delta, content_delta, tool_call_started,
  tool_call_arguments_delta, tool_call_arguments_done, round_complete,
}
use xarness.Client.{
  ToolCallDelta, Decoded, unreadable, loaded, Attempt, unreachable, response, complete, get_entry,
  feed, new_entry, stream,
}
use xarness.Client.Events.{starts, dones}
use xarness.Client.Stream.{starts-stream}
use xarness.Client.Arguments.{feed-arguments, args_of, fragments}
use xarness.Controller.{init, stream_round, save_interrupted_round, calls_or_none}
use xarness.Controller.Streaming.{
  calls, with_interrupted, stream_round-completes, stream_round-interrupted,
}
use xarness.Tests.Data.{clean}

abbrev call_delta : ToolCallDelta
call_delta = record { index = 0; id = none; name = some "run_bash"; arguments = some (codes "{") }

abbrev rest_delta : ToolCallDelta
rest_delta = record { index = 0; id = none; name = none; arguments = some (codes "}") }

abbrev other_delta : ToolCallDelta
other_delta = record { index = 1; id = some "x"; name = some "ask_user"; arguments = none }

feed-arguments_example :
    args_of (get_entry 0 (feed (call_delta ∷ other_delta ∷ rest_delta ∷ []) []).1)
    ≡ [] ++ fragments 0 (call_delta ∷ other_delta ∷ rest_delta ∷ [])
unfolding get_entry
feed-arguments_example = feed-arguments 0 (call_delta ∷ other_delta ∷ rest_delta ∷ []) []

-- The provider's JSON is not modelled: every parsed line is this chunk.
abbrev loads : Text → Decoded
loads line = loaded (record {
  error = none;
  usage = none;
  choices =
      record {
        reasoning = none;
        content = some (codes "ok");
        tool_calls = call_delta ∷ rest_delta ∷ [];
      }
      ∷ [];
})

-- The first attempt fails, the second streams one chunk.
abbrev transport : ℕ → Attempt
transport n =
    if eqb n 1
    then unreachable (codes "refused")
    else response (codes ": ping" ∷ codes "data: {}" ∷ codes "data: [DONE]" ∷ []) complete

stream-retried :
    stream loads transport
    ≡ processing_started
      ∷ content_delta (codes "ok")
      ∷ tool_call_started "call_0" "run_bash"
      ∷ tool_call_arguments_delta "call_0" (codes "{")
      ∷ tool_call_arguments_delta "call_0" (codes "}")
      ∷ tool_call_arguments_done "call_0" "run_bash" (codes "{}")
      ∷ round_complete none true
      ∷ []
unfolding stream decimal_string new_entry
stream-retried = refl

-- A line `data: null` ends the events with no terminal one.
stream-raised : stream (λ line. unreadable) transport ≡ processing_started ∷ []
unfolding stream
stream-raised = refl

starts-stream_example : starts (stream loads transport) ≡ dones (stream loads transport)
starts-stream_example = starts-stream loads transport (unfold stream decimal_string in refl)

abbrev open_part : List (ℕ × StreamEvent)
open_part =
    (3, reasoning_delta (codes "hm"))
    ∷ (5, content_delta (codes "o"))
    ∷ (6, content_delta (codes "k"))
    ∷ (7, tool_call_arguments_done "call_0" "run_bash" (codes "{}"))
    ∷ []

stream_round-completes_example :
    let (_, c) =
      stream_round "a2" none none (open_part ++ (9, round_complete none true) ∷ []) (init clean) in
    (m : AssistantMessage) × (c.conversation ≡ add (assistant m) clean)
    × (m.content ≡ codes "ok")
    × (m.reasoning ≡ some (codes "hm"))
    × (m.tool_calls ≡ calls_or_none (calls open_part))
    × (m.interrupted ≡ false)
    × (c.partial_round.content ≡ [])
    × (c.partial_round.reasoning ≡ [])
stream_round-completes_example =
    stream_round-completes "a2" none none open_part 9 none true (init clean) tt

stream_round-interrupted_example :
    let (_, c) = stream_round "a2" none none open_part (init clean) in
    let (saved, added) = save_interrupted_round "a2" c in
    (added ≡ true)
    × (saved.conversation ≡ with_interrupted "a2" (codes "ok") (codes "hm") clean)
    × ((save_interrupted_round "a2" saved).1 ≡ false)
stream_round-interrupted_example = stream_round-interrupted "a2" none none open_part (init clean) tt
