-- ===== src/Conversation/Wire.antt =====
-- The request format: the `to_wire` methods of src/xarness/conversation.py.
use xarness.Prelude.{
  Bool, false, not, ◌&&◌, ◌||◌, Option, none, some, List, [], ◌∷◌, ◌++◌, String, Text, nonempty,
  if◌then◌else◌,
}
use xarness.Conversation.Message.{
  Message, UserMessage, AssistantMessage, ToolCall, Part, ImageRef, token_text, part_images,
  joined_text, calls_of,
}
use xarness.Conversation.Log.{Conversation, visible_messages}

pub data WirePart : Type 0 where
  text : Text → WirePart
  image_url : Text → WirePart

pub record WireAssistant : Type 0 where
  pub content : Option Text
  pub reasoning_content : Option Text
  pub tool_calls : Option (List ToolCall)

-- A field that the source leaves out of the dict is `none`.
pub data WireMessage : Type 0 where
  system : Text → WireMessage
  user_text : Text → WireMessage
  user_parts : List WirePart → WireMessage
  assistant : WireAssistant → WireMessage
  tool : String → Text → WireMessage

-- `image_loader(part.ref) if image_loader is not None else None`
abbrev pub load : Option (ImageRef → Option Text) → ImageRef → Option Text
load none r = none
load (some loader) r = loader r

unfoldable pub wire_parts : Option (ImageRef → Option Text) → List Part → List WirePart
wire_parts loader [] = []
wire_parts loader (Part.text t ∷ parts) =
    let rest = wire_parts loader parts in if nonempty t then text t ∷ rest else rest
wire_parts loader (Part.image r ∷ parts) =
    let rest = wire_parts loader parts in
    elim (load loader r) [ none ↦ text (token_text r) ∷ rest | some url ↦ image_url url ∷ rest ]

unfoldable pub user_to_wire : Option (ImageRef → Option Text) → UserMessage → WireMessage
unfolding wire_parts
user_to_wire loader m =
    if nonempty (part_images m.parts)
    then user_parts (wire_parts loader m.parts)
    else user_text (joined_text m.parts)

unfoldable pub assistant_to_wire : Bool → AssistantMessage → WireMessage
assistant_to_wire include_reasoning m = assistant (record {
  content =
      if nonempty m.content || not (nonempty (calls_of m.tool_calls)) then some m.content else none;
  reasoning_content = elim m.reasoning [
    | none ↦ none
    | some r ↦ if include_reasoning && nonempty r then some r else none
  ];
  tool_calls = m.tool_calls;
})

unfoldable pub message_to_wire : Bool → Option (ImageRef → Option Text) → Message → WireMessage
unfolding user_to_wire assistant_to_wire
message_to_wire reasoning loader (Message.user m) = user_to_wire loader m
message_to_wire reasoning loader (Message.assistant m) = assistant_to_wire reasoning m
message_to_wire reasoning loader (Message.tool m) = tool m.tool_call_id m.content

-- A partial message with reasoning alone has no place on the wire.
unfoldable pub is_reasoning_only : Message → Bool
is_reasoning_only (Message.assistant m) =
    m.interrupted && not (nonempty m.content) && not (nonempty (calls_of m.tool_calls))
is_reasoning_only m = false

unfoldable pub wire_all : Bool → Option (ImageRef → Option Text) → List Message → List WireMessage
unfolding is_reasoning_only message_to_wire
wire_all reasoning loader [] = []
wire_all reasoning loader (m ∷ ms) =
    let rest = wire_all reasoning loader ms in
    if is_reasoning_only m then rest else message_to_wire reasoning loader m ∷ rest

abbrev system_part : Option Text → List WireMessage
system_part none = []
system_part (some prompt) = system prompt ∷ []

unfoldable pub to_wire :
    Bool → Option Text → Option (ImageRef → Option Text) → Conversation → List WireMessage
unfolding wire_all
to_wire keep_reasoning prompt loader c =
    system_part prompt ++ wire_all keep_reasoning loader (visible_messages c)
