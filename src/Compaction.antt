-- ===== src/Compaction.antt =====
-- compaction.py: the estimate of the context size, the summarization round and the compaction of
-- a conversation. The client is a function from the request to the events of the round; the id of
-- the summary message and the text of the prompt are parameters.
pub mod Estimate
use mathlib.Core.List.{reverse}
use xarness.Prelude.{
  ℕ, ◌+◌, ◌/◌, ◌≡◌, Bool, true, false, ◌||◌, ◌&&◌, Option, none, some, List, [], ◌∷◌, ◌++◌, String,
  Text, codes, nonempty, length, eqb, leb, if◌then◌else◌,
}
use xarness.Prelude.Strip.{strip}
use xarness.Conversation.Message.{
  Message, user, UserMessage, Usage, ImageRef, Part, text, no_timing, context_size, content,
  message_usage,
}
use xarness.Conversation.Log.{Conversation, add, visible_messages}
use xarness.Conversation.Wire.{WireMessage, user_text, to_wire}
use xarness.Protocol.{StreamEvent, content_delta, round_complete, stream_error}

abbrev pub chars_per_token : ℕ
chars_per_token = 4

-- `sum(len(m.content or "") // CHARS_PER_TOKEN for m in ms)`
unfoldable pub estimate : List Message → ℕ
estimate [] = 0
estimate (m ∷ ms) = length (content m) / chars_per_token + estimate ms

-- The search from the end for a message with a usage; `after` are the messages passed. Without
-- one, `estimated_from` is the last index, and nothing is estimated.
unfoldable pub context_from : Bool → List Message → List Message → ℕ
unfolding estimate context_size
context_from keep [] after = 0
context_from keep (m ∷ before) after = elim (message_usage m) [
  | some u ↦ context_size u keep + estimate after
  | none ↦ context_from keep before (m ∷ after)
]

unfoldable pub context_tokens : List Message → Bool → ℕ
unfolding context_from
context_tokens messages keep_reasoning = context_from keep_reasoning (reverse messages) []

pub data Outcome : Type 0 where
  summarized : Text → Option Usage → Outcome
  failed : Text → Outcome

unfoldable pub finish_summary : Text → Option Usage → Outcome
unfolding strip
finish_summary joined usage =
    let summary = strip joined in
    if nonempty summary
    then summarized summary usage
    else failed (codes "summarization returned no content")

-- The loop of `summarize` over the events, on the text so far.
unfoldable pub summarize_from : Text → List StreamEvent → Outcome
unfolding finish_summary
summarize_from joined [] = finish_summary joined none
summarize_from joined (content_delta t ∷ events) = summarize_from (joined ++ t) events
summarize_from joined (stream_error message ∷ events) = failed message
summarize_from joined (round_complete usage has_tool_calls ∷ events) = finish_summary joined usage
summarize_from joined (_ ∷ events) = summarize_from joined events

pub record CompactionResult : Type 0 where
  pub summary : Text
  pub usage : Option Usage
  pub before_tokens : ℕ
  pub after_tokens : ℕ

abbrev pub summary_prefix : Text
summary_prefix = codes "[earlier conversation, summarized]"

-- `user_message(text, is_summary=True)`: a text with no image is one part, or none if empty.
unfoldable pub summary_message : String → Text → Message
summary_message id t = user (record {
  id = id;
  timing = no_timing;
  parts = if nonempty t then text t ∷ [] else [];
  is_summary = true;
})

-- Nothing to do, a failed round (the source raises), or the result; the conversation changes in
-- the last case alone.
pub data Compacted : Type 0 where
  nothing : Compacted
  raised : Text → Compacted
  compacted : CompactionResult → Conversation → Compacted

module _ (stream : List WireMessage → List StreamEvent) (prompt : Text) (fresh : String) where
  unfoldable pub finish_compact : ℕ → Conversation → Outcome → Compacted
  unfolding summary_message
  finish_compact before_tokens c (failed message) = raised message
  finish_compact before_tokens c (summarized summary usage) =
      compacted
        (record {
          summary = summary;
          usage = usage;
          before_tokens = before_tokens;
          after_tokens = length summary / chars_per_token;
        })
        (add (summary_message fresh (summary_prefix ++ (codes "\n\n" ++ summary))) c)

  unfoldable pub compact :
      Conversation → Option Text → Bool → Option (ImageRef → Option Text) → Compacted
  unfolding finish_compact summarize_from context_tokens
  compact c system keep_reasoning loader =
      let visible = visible_messages c in
      let before_tokens = context_tokens visible keep_reasoning in
      let wire = to_wire keep_reasoning system loader c ++ user_text prompt ∷ [] in
      if nonempty visible
      then finish_compact before_tokens c (summarize_from [] (stream wire))
      else nothing
