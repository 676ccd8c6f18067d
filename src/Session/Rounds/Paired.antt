-- ===== src/Session/Rounds/Paired.antt =====
-- That the rounds of a turn of src/xarness/session.py leave every tool call answered.
use xarness.Prelude.{
  ℕ, zero, suc, ◌+◌, ◌≡◌, refl, sym, ap, subst, ◌∙◌, ◌⊎◌, inl, inr, Bool, true, false, ◌||◌, Option,
  List, [], ◌∷◌, ◌++◌, append_assoc, append-nil, String, Text, nonempty, last?-append, Bool-cases,
  arith,
}
use xarness.Conversation.Message.{
  Message, user, assistant, tool, UserMessage, AssistantMessage, ToolMessage, ToolCall, ToolResult,
  Usage, calls_of,
}
use xarness.Conversation.Log.{Conversation, add}
use xarness.Protocol.{StreamEvent, round_complete}
use xarness.Controller.{
  Controller, stream_round, save_interrupted_round, record_tool_result, inject_user_message,
  reset_partial,
}
use xarness.Controller.Streaming.{
  IsOpen, stream_round-completes, stream_round-interrupted, with_interrupted, answers, thoughts,
}
use xarness.Session.Rounds.{
  asked_calls, last_calls, Turn, append_users, execute_call, execute_calls, stream_one, end_round,
  run_rounds,
}

-- Tool messages that answer calls, each its own, in their order.
pub data Answers : List ToolCall → List Message → Type 0 where
  none_left : Answers [] []
  one_more :
      {c : ToolCall} {cs : List ToolCall} {m : ToolMessage} {ms : List Message}
      → m.tool_call_id ≡ c.call_id
      → Answers cs ms
      → Answers (c ∷ cs) (tool m ∷ ms)

abbrev pub is_tool : Message → Bool
is_tool (tool m) = true
is_tool m = false

-- A history in which the answers of a message's calls stand right behind it, each call has one, and
-- no tool message stands elsewhere.
pub data Paired : List Message → Type 0 where
  no_messages : Paired []
  alone :
      (ms : List Message) (m : Message)
      → asked_calls m ≡ []
      → is_tool m ≡ false
      → Paired ms
      → Paired (ms ++ m ∷ [])
  with_answers :
      (ms ts : List Message) (m : AssistantMessage)
      → Answers (calls_of m.tool_calls) ts
      → Paired ms
      → Paired (ms ++ assistant m ∷ ts)

-- What the provider sends for a round: a stream that breaks off, or one that completes at its end.
pub data IsReply : List (ℕ × StreamEvent) → Type 0 where
  breaks : (es : List (ℕ × StreamEvent)) → IsOpen es → IsReply es
  completes :
      (es : List (ℕ × StreamEvent)) (at_time : ℕ) (usage : Option Usage) (has_calls : Bool)
      → IsOpen es
      → IsReply (es ++ (at_time, round_complete usage has_calls) ∷ [])

add-messages : (m : Message) (c : Conversation) → (add m c).messages ≡ c.messages ++ m ∷ []
unfolding add
add-messages m c = refl

last_calls-append : (ms : List Message) (m : Message) → last_calls (ms ++ m ∷ []) ≡ asked_calls m
last_calls-append ms m = rw (last_calls, last?-append ms m) refl

last_calls-Answers :
    (ms ts : List Message) (c : ToolCall) (cs : List ToolCall)
    → Answers (c ∷ cs) ts
    → last_calls (ms ++ ts) ≡ []
last_calls-Answers ms ts c cs (one_more {m = m} e none_left) = last_calls-append ms (tool m)
last_calls-Answers ms ts c cs (one_more {m = m} {ms = rest} e (one_more {c = d} {cs = ds} f a)) =
    ap last_calls (sym (append_assoc ms (tool m ∷ []) rest))
    ∙ last_calls-Answers (ms ++ tool m ∷ []) rest d ds (one_more f a)

interrupted_shape :
    (fresh : String) (a b : Text) (c : Conversation)
    → (with_interrupted fresh a b c ≡ c)
      ⊎ ((m : AssistantMessage) × (with_interrupted fresh a b c ≡ add (assistant m) c))
interrupted_shape fresh a b c = elim (Bool-cases (nonempty a || nonempty b)) [
  | inl e ↦ rw e (inr (_, refl))
  | inr e ↦ rw e (inl refl)
]

save_cleared :
    (fresh : String) (c : Controller)
    → c.partial_round.content ≡ []
    → c.partial_round.reasoning ≡ []
    → (save_interrupted_round fresh c).0.conversation ≡ c.conversation
unfolding save_interrupted_round
save_cleared fresh c e f = ground (arith, e, f)

answered_last :
    (ms ts : List Message) (cs : List ToolCall)
    → nonempty cs ≡ true
    → Answers cs ts
    → last_calls (ms ++ ts) ≡ []
answered_last ms ts [] n a = absurd (ground arith)
answered_last ms ts (c ∷ cs) n a = last_calls-Answers ms ts c cs a

no_calls : (cs : List ToolCall) → nonempty cs ≡ false → cs ≡ []
no_calls [] n = refl
no_calls (c ∷ cs) n = absurd (ground arith)

-- What a round adds to the history: nothing, or the message of the provider.
record Adds (c c' : Controller) : Type 0 where
  added :
      (c'.conversation.messages ≡ c.conversation.messages)
      ⊎ ((m : AssistantMessage) × (c'.conversation.messages
            ≡ c.conversation.messages ++ assistant m ∷ []))

stream-Adds :
    (f : String) (s e : Option String) (es : List (ℕ × StreamEvent)) (c : Controller)
    → IsReply es
    → Adds c (save_interrupted_round f (stream_round f s e es c).1).0
stream-Adds f s e es c (breaks _ h) =
    let (_, k, _) = stream_round-interrupted f s e es c h in
    record {
      added = elim (interrupted_shape f (answers es) (thoughts es) c.conversation) [
        | inl same ↦ inl (ap (λ d. d.messages) (k ∙ same))
        | inr (m, more) ↦
            inr (m, ap (λ d. d.messages) (k ∙ more) ∙ add-messages (assistant m) c.conversation)
      ];
    }
stream-Adds f s e es c (completes es' t u b h) =
    let (m, k, _, _, _, _, p, q) = stream_round-completes f s e es' t u b c h in
    let c' = (stream_round f s e (es' ++ (t, round_complete u b) ∷ []) c).1 in
    record {
      added = inr (
        m,
        ap (λ d. d.messages) (save_cleared f c' p q ∙ k)
            ∙ add-messages (assistant m) c.conversation,
      );
    }

-- The messages of a round's end.
append_users-Paired :
    (us : List UserMessage) (c : Controller)
    → Paired c.conversation.messages
    → last_calls c.conversation.messages ≡ []
    → Paired (append_users us c).conversation.messages
      × (last_calls (append_users us c).conversation.messages ≡ [])
unfolding append_users inject_user_message add
append_users-Paired [] c h k = (h, k)
append_users-Paired (u ∷ us) c h k =
    append_users-Paired us (inject_user_message u c)
      (alone c.conversation.messages (user u) refl refl h)
      (last_calls-append c.conversation.messages (user u))

module _ {World : Type 0} (fresh : ℕ → String) (stamp : ℕ → Option String)
    (call : String → Text → World → ToolResult × World) where
  execute_calls-Answers :
      (cs : List ToolCall) (t : Turn World)
      → (ts : List Message) × Answers cs ts
        × ((execute_calls fresh stamp call cs t).controller.conversation.messages
            ≡ t.controller.conversation.messages ++ ts)
  unfolding execute_calls record_tool_result add
  execute_calls-Answers [] t = ([], none_left, sym (append-nil t.controller.conversation.messages))
  execute_calls-Answers (c ∷ cs) t =
      let (ts, a, e) = execute_calls-Answers cs (execute_call fresh stamp call c t) in
      (_ ∷ ts, one_more refl a, e ∙ append_assoc t.controller.conversation.messages (_ ∷ []) ts)

  module _ (reply : Controller → List (ℕ × StreamEvent))
      (at_boundary : Controller → List UserMessage) where
    end_round-Paired :
        (ms : List Message) (m : AssistantMessage) (t : Turn World)
        → Paired ms
        → t.controller.conversation.messages ≡ ms ++ assistant m ∷ []
        → nonempty (calls_of m.tool_calls) ≡ true
        → let after =
            (end_round fresh stamp call reply at_boundary (calls_of m.tool_calls) t).controller in
          Paired after.conversation.messages × (last_calls after.conversation.messages ≡ [])
    unfolding end_round reset_partial
    end_round-Paired ms m t h e n =
        let (ts, a, k) = execute_calls-Answers (calls_of m.tool_calls) t in
        let t' = execute_calls fresh stamp call (calls_of m.tool_calls) t in
        let all : t'.controller.conversation.messages ≡ ms ++ assistant m ∷ ts =
          k ∙ ap (λ xs. xs ++ ts) e ∙ append_assoc ms (assistant m ∷ []) ts in
        append_users-Paired (at_boundary t'.controller) t'.controller
          (subst Paired (sym all) (with_answers ms ts m a h))
          (ap last_calls all
            ∙ ap last_calls (sym (append_assoc ms (assistant m ∷ []) ts))
            ∙ answered_last (ms ++ assistant m ∷ []) ts (calls_of m.tool_calls) n a)

    stream_one-Adds :
        (t : Turn World)
        → IsReply (reply t.controller)
        → Adds t.controller (stream_one fresh stamp call reply at_boundary t).controller
    unfolding stream_one
    stream_one-Adds t r =
        stream-Adds (fresh t.drawn) (stamp t.drawn) (stamp (t.drawn + 1)) (reply t.controller)
          t.controller r

    -- However many rounds a turn has had, the answers of each message's tool calls stand right behind
    -- it, in order, and every call has one, if that was so before the turn, the turn starts with no
    -- call open, and each reply of the provider breaks off or completes once at its end.
    pub run_rounds-Paired :
        (rounds : ℕ) (t : Turn World)
        → ((c : Controller) → IsReply (reply c))
        → Paired t.controller.conversation.messages
        → last_calls t.controller.conversation.messages ≡ []
        → Paired
            (run_rounds fresh stamp call reply at_boundary rounds
              t).0.controller.conversation.messages
    unfolding run_rounds
    run_rounds-Paired zero t r h d = h
    run_rounds-Paired (suc rounds) t r h d =
        let s = stream_one fresh stamp call reply at_boundary t in
        let adds = stream_one-Adds t (r t.controller) in
        elim adds.added [
          | inl same ↦
              let none_asked = ap nonempty (ap last_calls same ∙ d) in
              rw none_asked (subst Paired (sym same) h)
          | inr (m, more) ↦
              let asked =
                ap last_calls more
                ∙ last_calls-append t.controller.conversation.messages (assistant m) in
              elim (Bool-cases (nonempty (calls_of m.tool_calls))) [
                | inl n ↦
                    let (p, q) = end_round-Paired t.controller.conversation.messages m s h more n in
                    rw (asked, n)
                      (run_rounds-Paired rounds
                        (end_round fresh stamp call reply at_boundary (calls_of m.tool_calls) s) r p
                        q)
                | inr n ↦
                    rw (asked, n)
                      (subst Paired (sym more) (
                        alone t.controller.conversation.messages (assistant m)
                          (no_calls (calls_of m.tool_calls) n) refl h))
              ]
        ]
