-- ===== src/Controller/Streaming.antt =====
-- What `_stream_round` and `save_interrupted_round` of src/xarness/controller.py put into the
-- history, against the events of the round.
use xarness.Prelude.{
  ℕ, ◌≡◌, refl, sym, ap, ◌∙◌, Bool, true, false, ◌||◌, Option, none, List, [], ◌∷◌, ◌++◌,
  append-nil, append_assoc, String, Text, nonempty, arith, if◌then◌else◌,
}
use xarness.Conversation.Message.{assistant, AssistantMessage, ToolCall, Usage, no_timing}
use xarness.Conversation.Log.{Conversation, add}
use xarness.Protocol.{
  StreamEvent, reasoning_delta, content_delta, tool_call_arguments_done, round_complete,
}
use xarness.Controller.{
  Controller, Round, start_round, text_or_none, calls_or_none, save_interrupted_round,
  round_message, complete_round, usage_or, estimate_usage, on_event, run_events, stream_round,
}

-- The texts and the finished calls that the events carry, joined in order.
abbrev pub answers : List (ℕ × StreamEvent) → Text
answers [] = []
answers ((_, content_delta t) ∷ es) = t ++ answers es
answers ((_, _) ∷ es) = answers es

abbrev pub thoughts : List (ℕ × StreamEvent) → Text
thoughts [] = []
thoughts ((_, reasoning_delta t) ∷ es) = t ++ thoughts es
thoughts ((_, _) ∷ es) = thoughts es

abbrev pub calls : List (ℕ × StreamEvent) → List ToolCall
calls [] = []
calls ((_, tool_call_arguments_done id name args) ∷ es) =
    record { call_id = id; name = name; arguments_json = args } ∷ calls es
calls ((_, _) ∷ es) = calls es

-- No event completes the round.
abbrev pub IsOpen : List (ℕ × StreamEvent) → Type 0
IsOpen [] = Unit
IsOpen ((_, round_complete u b) ∷ es) = ⊥
IsOpen ((_, _) ∷ es) = IsOpen es

-- What an open part of the round leaves of `r`.
record Follows (es : List (ℕ × StreamEvent)) (r r' : Round) : Type 0 where
  content : r'.controller.partial_round.content ≡ r.controller.partial_round.content ++ answers es
  reasoning :
      r'.controller.partial_round.reasoning ≡ r.controller.partial_round.reasoning ++ thoughts es
  done : r'.done_calls ≡ r.done_calls ++ calls es
  conversation : r'.controller.conversation ≡ r.controller.conversation
  total : r'.controller.usage_total ≡ r.controller.usage_total

module _ (fresh : String) (started_at ended_at : Option String) where
  run_events-append :
      (es fs : List (ℕ × StreamEvent)) (r : Round)
      → (run_events fresh started_at ended_at (es ++ fs) r).1
        ≡ (run_events fresh started_at ended_at fs (run_events fresh started_at ended_at es r).1).1
  unfolding run_events
  run_events-append [] fs r = refl
  run_events-append ((t, e) ∷ es) fs r =
      run_events-append es fs (on_event fresh started_at ended_at t e r).1

  run_events-Follows :
      (es : List (ℕ × StreamEvent)) (r : Round)
      → IsOpen es
      → Follows es r (run_events fresh started_at ended_at es r).1
  unfolding run_events
  run_events-Follows [] r h = record {
    content = sym (append-nil _);
    reasoning = sym (append-nil _);
    done = sym (append-nil _);
    conversation = refl;
    total = refl;
  }
  run_events-Follows ((t, round_complete u b) ∷ es) r h = absurd h
  run_events-Follows ((t, content_delta x) ∷ es) r h =
      let f =
        run_events-Follows es (on_event fresh started_at ended_at t (content_delta x) r).1 h in
      record {
        content = f.content ∙ append_assoc _ x (answers es);
        reasoning = f.reasoning;
        done = f.done;
        conversation = f.conversation;
        total = f.total;
      }
  run_events-Follows ((t, reasoning_delta x) ∷ es) r h =
      let f =
        run_events-Follows es (on_event fresh started_at ended_at t (reasoning_delta x) r).1 h in
      record {
        content = f.content;
        reasoning = f.reasoning ∙ append_assoc _ x (thoughts es);
        done = f.done;
        conversation = f.conversation;
        total = f.total;
      }
  run_events-Follows ((t, tool_call_arguments_done i n a) ∷ es) r h =
      let f =
        run_events-Follows es
          (on_event fresh started_at ended_at t (tool_call_arguments_done i n a) r).1 h in
      record {
        content = f.content;
        reasoning = f.reasoning;
        done = f.done ∙ append_assoc _ _ (calls es);
        conversation = f.conversation;
        total = f.total;
      }
  run_events-Follows ((t, e) ∷ es) r h =
      let f = run_events-Follows es (on_event fresh started_at ended_at t e r).1 h in
      record {
        content = f.content;
        reasoning = f.reasoning;
        done = f.done;
        conversation = f.conversation;
        total = f.total;
      }

  abbrev after : List (ℕ × StreamEvent) → Controller → Round
  after es c = (run_events fresh started_at ended_at es (start_round c)).1

  stream_round_complete :
      (es : List (ℕ × StreamEvent)) (t : ℕ) (reported : Option Usage) (b : Bool) (c : Controller)
      → (stream_round fresh started_at ended_at (es ++ (t, round_complete reported b) ∷ []) c).1
        ≡ (complete_round fresh started_at ended_at t reported (after es c)).1.controller
  unfolding stream_round
  stream_round_complete es t reported b c =
      ap (λ (r : Round). r.controller)
        (run_events-append es ((t, round_complete reported b) ∷ []) (start_round c))

  -- Where the events before the completion hold no other completion, a round that completes
  -- appends one assistant message, with the answer, the reasoning and the finished calls that were
  -- streamed, not marked as interrupted, and leaves no answer or reasoning in the live round.
  pub stream_round-completes :
      (es : List (ℕ × StreamEvent)) (t : ℕ) (reported : Option Usage) (b : Bool) (c : Controller)
      → IsOpen es
      → let (_, c') =
          stream_round fresh started_at ended_at (es ++ (t, round_complete reported b) ∷ []) c in
        (m : AssistantMessage) × (c'.conversation ≡ add (assistant m) c.conversation)
        × (m.content ≡ answers es)
        × (m.reasoning ≡ text_or_none (thoughts es))
        × (m.tool_calls ≡ calls_or_none (calls es))
        × (m.interrupted ≡ false)
        × (c'.partial_round.content ≡ [])
        × (c'.partial_round.reasoning ≡ [])
  unfolding complete_round start_round
  stream_round-completes es t reported b c h =
      let r = after es c in
      let f = run_events-Follows es (start_round c) h in
      let usage =
        usage_or reported (estimate_usage r.controller.partial_round.content r.controller) in
      let m = round_message fresh started_at ended_at t usage r in
      rw (stream_round_complete es t reported b c) (
        m,
        ap (add (assistant m)) f.conversation,
        f.content,
        ap text_or_none f.reasoning,
        ap calls_or_none f.done,
        refl,
        refl,
        refl,
      )

-- The history after an interrupted answer and its reasoning are saved, if there are any.
abbrev pub with_interrupted : String → Text → Text → Conversation → Conversation
with_interrupted fresh answer thought c =
    if nonempty answer || nonempty thought
    then add
        (assistant (record {
          id = fresh;
          timing = no_timing;
          content = answer;
          reasoning = text_or_none thought;
          usage = none;
          tool_calls = none;
          interrupted = true;
        }))
        c
    else c

save_interrupted_round_lem :
    (fresh : String) (c : Controller)
    → let (saved, added) = save_interrupted_round fresh c in
      let p = c.partial_round in
      (added ≡ (nonempty p.content || nonempty p.reasoning))
      × (saved.conversation ≡ with_interrupted fresh p.content p.reasoning c.conversation)
      × (saved.partial_round.content ≡ [])
      × (saved.partial_round.reasoning ≡ [])
unfolding save_interrupted_round
save_interrupted_round_lem fresh c = (ground arith, ground arith, ground arith, ground arith)

-- Called again, with nothing streamed in between, it saves nothing.
save_interrupted_round_twice :
    (fresh : String) (c : Controller)
    → c.partial_round.content ≡ []
    → c.partial_round.reasoning ≡ []
    → (save_interrupted_round fresh c).1 ≡ false
unfolding save_interrupted_round
save_interrupted_round_twice fresh c h k = ground arith

-- A round whose events hold no completion, and its `save_interrupted_round`: the answer and the
-- reasoning that were streamed are appended, marked as interrupted, if there is any, and a second
-- call adds nothing.
pub stream_round-interrupted :
    (fresh : String) (started_at ended_at : Option String) (es : List (ℕ × StreamEvent))
    (c : Controller)
    → IsOpen es
    → let (_, c') = stream_round fresh started_at ended_at es c in
      let (saved, added) = save_interrupted_round fresh c' in
      (added ≡ (nonempty (answers es) || nonempty (thoughts es)))
      × (saved.conversation ≡ with_interrupted fresh (answers es) (thoughts es) c.conversation)
      × ((save_interrupted_round fresh saved).1 ≡ false)
unfolding stream_round start_round
stream_round-interrupted fresh started_at ended_at es c h =
    let r = (run_events fresh started_at ended_at es (start_round c)).1 in
    let f = run_events-Follows fresh started_at ended_at es (start_round c) h in
    let (added, saved, p, q) = save_interrupted_round_lem fresh r.controller in
    (
      rw (← f.content, ← f.reasoning) added,
      saved ∙ (λ i. with_interrupted fresh (f.content i) (f.reasoning i) (f.conversation i)),
      save_interrupted_round_twice fresh (save_interrupted_round fresh r.controller).0 p q,
    )
