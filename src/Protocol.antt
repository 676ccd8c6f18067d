-- ===== src/Protocol.antt =====
-- src/xarness/protocol: the events that a round streams (`StreamEvent` of events.py) and the live
-- round that an attaching client renders (`PartialToolCall`, `PartialRound` of views.py). The
-- emission time `t` of an event is not modelled.
use xarness.Prelude.{Bool, ◌||◌, Option, List, [], ◌∷◌, String, Text, nonempty, ◌==◌, if◌then◌else◌}
use xarness.Conversation.Message.{Usage, ToolStatus}

pub data StreamEvent : Type 0 where
  processing_started : StreamEvent
  reasoning_delta : Text → StreamEvent
  content_delta : Text → StreamEvent
  tool_call_started : String → String → StreamEvent
  tool_call_arguments_delta : String → Text → StreamEvent
  tool_call_arguments_done : String → String → Text → StreamEvent
  round_complete : Option Usage → Bool → StreamEvent
  stream_error : Text → StreamEvent

pub record PartialToolCall : Type 0 where
  pub call_id : String
  pub name : String
  pub arguments : Text
  pub content : Text
  pub status : Option ToolStatus

pub record PartialRound : Type 0 where
  pub reasoning : Text
  pub content : Text
  pub tool_calls : List PartialToolCall

abbrev pub no_round : PartialRound
no_round = record { reasoning = []; content = []; tool_calls = [] }

-- An assignment to the call that `find_call` returns: the first one with the id, if any.
unfoldable pub update_call :
    String → (PartialToolCall → PartialToolCall) → List PartialToolCall → List PartialToolCall
update_call id f [] = []
update_call id f (c ∷ cs) = if c.call_id == id then f c ∷ cs else c ∷ update_call id f cs

-- `PartialRound.__bool__`
unfoldable pub is_live : PartialRound → Bool
is_live p = nonempty p.reasoning || nonempty p.content || nonempty p.tool_calls
