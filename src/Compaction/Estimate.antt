-- ===== src/Compaction/Estimate.antt =====
-- The estimate of src/xarness/compaction.py before and after a compaction.
use mathlib.Core.List.{reverse, reverse-append, reverse-cons, reverse-reverse}
use xarness.Prelude.{
  ℕ, ◌+◌, ◌≡◌, refl, ap, ◌∙◌, Bool, true, Option, none, some, List, [], ◌∷◌, ◌++◌, String, Text,
  codes, nonempty, arith, length, drop-length-append, append_assoc, append-nil, Bool-cases, inl,
  inr,
}
use xarness.Conversation.Message.{Message, Usage, ImageRef, context_size, message_usage, is_summary}
use xarness.Conversation.Log.{Conversation, add, visible_messages}
use xarness.Conversation.Wire.{WireMessage}
use xarness.Protocol.{StreamEvent}
use xarness.Compaction.{
  estimate, context_from, context_tokens, compact, finish_compact, Outcome, summarized, failed,
  compacted, CompactionResult, summary_message, summary_prefix,
}

-- The visible slice after a summary is the summary alone.
pub visible-add_summary :
    (m : Message) (c : Conversation) → is_summary m ≡ true → visible_messages (add m c) ≡ m ∷ []
unfolding add
visible-add_summary m c h = rw h (drop-length-append c.messages (m ∷ []))

abbrev NoUsage : List Message → Type 0
NoUsage [] = Unit
NoUsage (m ∷ ms) = (message_usage m ≡ none) × NoUsage ms

context_from-NoUsage :
    (keep : Bool) (before after : List Message)
    → NoUsage before
    → context_from keep before after ≡ 0
unfolding context_from
context_from-NoUsage keep [] after h = refl
context_from-NoUsage keep (m ∷ before) after h =
    ground (arith, context_from-NoUsage keep before (m ∷ after) h.1)

context_from_skip :
    (keep : Bool) (passed before after : List Message)
    → NoUsage passed
    → context_from keep (passed ++ before) after
      ≡ context_from keep before (reverse passed ++ after)
unfolding context_from
context_from_skip keep [] before after h = refl
context_from_skip keep (m ∷ passed) before after h =
    let next = context_from_skip keep passed before (m ∷ after) h.1 in
    let turned : reverse (m ∷ passed) ++ after ≡ reverse passed ++ (m ∷ after) =
      rw reverse-cons (append_assoc (reverse passed) (m ∷ []) after) in
    rw turned (ground (arith, next))

-- Where a message has a usage and none after it has one, the estimate is the context size of that
-- usage and the tokens estimated from the characters of the messages after it.
pub context_tokens_lem :
    (before : List Message) (m : Message) (u : Usage) (after : List Message) (keep : Bool)
    → message_usage m ≡ some u
    → NoUsage (reverse after)
    → context_tokens (before ++ (m ∷ after)) keep ≡ context_size u keep + estimate after
unfolding context_tokens
context_tokens_lem before m u after keep h n =
    rw (reverse-append, reverse-cons, append_assoc)
      (context_from_skip keep (reverse after) (m ∷ reverse before) [] n
        ∙ rw (append-nil, reverse-reverse) (ground arith))

-- What a compaction appends: a summary with no usage.
record Appends (c c' : Conversation) : Type 0 where
  message : Message
  summary : is_summary message ≡ true
  bare : message_usage message ≡ none
  appended : c' ≡ add message c

module _ (stream : List WireMessage → List StreamEvent) (prompt : Text) (fresh : String)
    (c c' : Conversation) (r : CompactionResult) where
  finish_compact-Appends :
      (n : ℕ) (o : Outcome)
      → finish_compact stream prompt fresh n c o ≡ compacted r c'
      → Appends c c'
  unfolding finish_compact
  finish_compact-Appends n (failed t) h = absurd (ground arith)
  finish_compact-Appends n (summarized t u) h = record {
    message = summary_message fresh (summary_prefix ++ (codes "\n\n" ++ t));
    summary = unfold summary_message in refl;
    bare = unfold summary_message in refl;
    appended = cc;
  }

  compact-Appends :
      (system : Option Text) (keep : Bool) (loader : Option (ImageRef → Option Text))
      → compact stream prompt fresh c system keep loader ≡ compacted r c'
      → Appends c c'
  unfolding compact
  compact-Appends system keep loader h = elim (Bool-cases (nonempty (visible_messages c))) [
    | inl e ↦ finish_compact-Appends _ _ (rw (e, nonempty) at h)
    | inr e ↦ absurd (ground arith)
  ]

  -- Where a compaction returns a result, the estimate right after it is 0, and the visible slice
  -- is one message, appended to the history.
  compact-context_tokens :
      (system : Option Text) (keep : Bool) (loader : Option (ImageRef → Option Text))
      → compact stream prompt fresh c system keep loader ≡ compacted r c'
      → (context_tokens (visible_messages c') keep ≡ 0)
        × (length (visible_messages c') ≡ 1)
        × (c'.messages ≡ c.messages ++ visible_messages c')
  unfolding context_tokens
  compact-context_tokens system keep loader h =
      let a = compact-Appends system keep loader h in
      let seen : visible_messages c' ≡ a.message ∷ [] =
        ap visible_messages a.appended ∙ visible-add_summary a.message c a.summary in
      (
        rw seen (context_from-NoUsage keep (a.message ∷ []) [] (a.bare, tt)),
        rw seen,
        rw seen (ap (λ (d : Conversation). d.messages) a.appended ∙ (unfold add in refl)),
      )
