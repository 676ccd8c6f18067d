-- ===== src/Controller/Totals.antt =====
-- The cumulative usage of src/xarness/controller.py (`usage_total`, `_fold_usage`).
use xarness.Prelude.{ℕ, ◌+◌, ◌≡◌, Option, some, List, [], ◌∷◌, String, arith}
use xarness.Conversation.Message.{Usage}
use xarness.Protocol.{StreamEvent, processing_started, round_complete}
use xarness.Controller.{Controller, Round, start_round, on_event, run_events, stream_round}

-- The sum of one count of the usages that the events report.
abbrev pub spent : (Usage → ℕ) → List StreamEvent → ℕ
spent f [] = 0
spent f (round_complete (some u) b ∷ es) = f u + spent f es
spent f (_ ∷ es) = spent f es

-- `total'` is `total` and what the events report, in each of the four counts.
pub record Spends (es : List StreamEvent) (total total' : Usage) : Type 0 where
  pub input : total'.input_tokens ≡ total.input_tokens + spent (λ u. u.input_tokens) es
  pub output : total'.output_tokens ≡ total.output_tokens + spent (λ u. u.output_tokens) es
  pub cached : total'.cached_tokens ≡ total.cached_tokens + spent (λ u. u.cached_tokens) es
  pub reasoning :
      total'.reasoning_tokens ≡ total.reasoning_tokens + spent (λ u. u.reasoning_tokens) es

module _ (fresh : String) (started_at ended_at : Option String) where
  run_events-Spends :
      (es : List (ℕ × StreamEvent)) (r : Round)
      → let (out, r') = run_events fresh started_at ended_at es r in
        Spends out r.controller.usage_total r'.controller.usage_total
  unfolding run_events
  run_events-Spends [] r = omega arith
  run_events-Spends ((t, round_complete u b) ∷ es) r =
      let h =
        run_events-Spends es (on_event fresh started_at ended_at t (round_complete u b) r).1 in
      record {
        input = omega (arith, h.input);
        output = omega (arith, h.output);
        cached = omega (arith, h.cached);
        reasoning = omega (arith, h.reasoning);
      }
  run_events-Spends ((t, processing_started) ∷ es) r =
      let h = run_events-Spends es r in
      record { input = h.input; output = h.output; cached = h.cached; reasoning = h.reasoning }
  run_events-Spends ((t, e) ∷ es) r =
      let h = run_events-Spends es (on_event fresh started_at ended_at t e r).1 in
      record { input = h.input; output = h.output; cached = h.cached; reasoning = h.reasoning }

  -- The session total grows by exactly the usages that the round passes on in its completion
  -- events, reported by the provider or estimated.
  stream_round-Spends :
      (es : List (ℕ × StreamEvent)) (c : Controller)
      → let (out, c') = stream_round fresh started_at ended_at es c in
        Spends out c.usage_total c'.usage_total
  unfolding stream_round start_round
  stream_round-Spends es c = run_events-Spends es (start_round c)
