-- ===== src/Conversation/Message.antt =====
-- The messages of src/xarness/conversation.py (`ToolResult` to `ToolMessage`), the image
-- references of src/xarness/images.py that they carry, and `Usage`.
-- A text that is joined or measured is a list of code points; ids are only compared. Clock
-- readings in seconds are counted in ticks.
use xarness.Prelude.{
  ℕ, ◌+◌, ◌-◌, Bool, true, false, not, ◌&&◌, Option, none, some, List, [], ◌∷◌, ◌++◌, String, Text,
  codes, ltb, take, if◌then◌else◌,
}
use xarness.Prelude.Decimal.{decimal}

pub record ImageRef : Type 0 where
  pub id : String
  pub name : String
  pub mime : String
  pub width : ℕ
  pub height : ℕ

-- `image.id[:4]`
unfoldable pub token_id : ImageRef → Text
token_id image = take 4 (codes image.id)

-- `[🖼 {name} {width}×{height} #{id}]`
unfoldable pub token_text : ImageRef → Text
unfolding token_id
token_text image =
    codes "[🖼 "
    ++ (codes image.name
        ++ (codes " "
            ++ (decimal image.width
                ++ (codes "×"
                    ++ (decimal image.height ++ (codes " #" ++ (token_id image ++ codes "]")))))))

pub data ToolStatus : Type 0 where
  ok error parse_error interrupted : ToolStatus

pub record ToolResult : Type 0 where
  pub status : ToolStatus
  pub content : Text

pub data Part : Type 0 where
  text : Text → Part
  image : ImageRef → Part

pub record ToolCall : Type 0 where
  pub call_id : String
  pub name : String
  pub arguments_json : Text

pub record Usage : Type 0 where
  pub input_tokens : ℕ
  pub output_tokens : ℕ
  pub cached_tokens : ℕ
  pub reasoning_tokens : ℕ
  pub approximate : Bool

abbrev pub no_usage : Usage
no_usage = record {
  input_tokens = 0;
  output_tokens = 0;
  cached_tokens = 0;
  reasoning_tokens = 0;
  approximate = false;
}

-- `Usage.context_tokens`: `max(0, a - b)` is the subtraction that stops at 0.
unfoldable pub context_size : Usage → Bool → ℕ
context_size u keep_reasoning =
    let output =
      if not keep_reasoning && ltb 0 u.reasoning_tokens
      then u.output_tokens - u.reasoning_tokens
      else u.output_tokens in
    u.input_tokens + output

pub record Timing : Type 0 where
  pub send : Option String
  pub start : Option String
  pub stop : Option String
  pub reasoning_seconds : Option ℕ

abbrev pub no_timing : Timing
no_timing = record { send = none; start = none; stop = none; reasoning_seconds = none }

pub record UserMessage : Type 0 where
  pub id : String
  pub timing : Timing
  pub parts : List Part
  pub is_summary : Bool

pub record AssistantMessage : Type 0 where
  pub id : String
  pub timing : Timing
  pub content : Text
  pub reasoning : Option Text
  pub usage : Option Usage
  pub tool_calls : Option (List ToolCall)
  pub interrupted : Bool

pub record ToolMessage : Type 0 where
  pub id : String
  pub timing : Timing
  pub tool_call_id : String
  pub content : Text
  pub status : ToolStatus

pub data Message : Type 0 where
  user : UserMessage → Message
  assistant : AssistantMessage → Message
  tool : ToolMessage → Message

abbrev pub message_id : Message → String
message_id (user m) = m.id
message_id (assistant m) = m.id
message_id (tool m) = m.id

-- Only a user message persists `is_summary`; elsewhere it is its default.
abbrev pub is_summary : Message → Bool
is_summary (user m) = m.is_summary
is_summary (assistant m) = false
is_summary (tool m) = false

abbrev pub is_user : Message → Bool
is_user (user m) = true
is_user (assistant m) = false
is_user (tool m) = false

-- `getattr(message, "usage", None)`
abbrev pub message_usage : Message → Option Usage
message_usage (user m) = none
message_usage (assistant m) = m.usage
message_usage (tool m) = none

-- `"".join(part.text for part in self.parts if isinstance(part, TextPart))`
abbrev pub joined_text : List Part → Text
joined_text [] = []
joined_text (text t ∷ parts) = t ++ joined_text parts
joined_text (image _ ∷ parts) = joined_text parts

abbrev pub content : Message → Text
content (user m) = joined_text m.parts
content (assistant m) = m.content
content (tool m) = m.content

abbrev pub part_images : List Part → List ImageRef
part_images [] = []
part_images (text _ ∷ parts) = part_images parts
part_images (image r ∷ parts) = r ∷ part_images parts

abbrev pub image_refs : Message → List ImageRef
image_refs (user m) = part_images m.parts
image_refs (assistant m) = []
image_refs (tool m) = []

-- `message.tool_calls or []`
abbrev pub calls_of : Option (List ToolCall) → List ToolCall
calls_of none = []
calls_of (some calls) = calls
