-- ===== src/Session/Clients.antt =====
-- The fan-out of events to the clients of a session (`_emit`, `subscribe` in
-- src/xarness/session.py).
use xarness.Prelude.{
  ℕ, ◌-◌, ◌≡◌, refl, sym, ap, ◌∙◌, Bool, true, false, not, ◌&&◌, ◌||◌, Option, none, some, List, [],
  ◌∷◌, ◌++◌, String, Text, append-nil, is_some, nonempty, ◌==◌, if◌then◌else◌,
}
use xarness.Conversation.Message.{ImageRef}
use xarness.Session.{
  State, idle, running, compacting, state_eq, absent, alive, QueuedSteer, Session, Event,
  Subscribers, turn_ended, notice, ask_resolved, status_changed, status, fan_out, emit, emit_status,
  set_state, start_turn, cancel_work, reset_round, heal_stranded, start_queued, inject_all,
  inject_queued, TurnOutcome, failed,
}
use xarness.Session.Commands.{
  all_stored, cmd_send, cmd_cancel, cmd_answer_ask, cmd_discard_queued, cmd_flush_queued,
  cmd_compact, subscribe,
}
use xarness.Session.Steps.{
  close_out, turn_died, end_compact, Step, send, cancel, answer, discard, flush, start_compact,
  attach, ask, ask_done, boundary, auto_compact, auto_compact_done, finish, closed_out, resume,
  died, compacted,
}

-- The queues after some events.
abbrev pub fan_all : List Event → Subscribers → Subscribers
fan_all [] subscribers = subscribers
fan_all (e ∷ es) subscribers = fan_all es (fan_out e subscribers)

-- The queues of clients that have just attached.
abbrev pub new_queues : List ℕ → Subscribers
new_queues [] = []
new_queues (i ∷ is) = (i, []) ∷ new_queues is

abbrev Fed : Subscribers → Subscribers → Type 0
Fed a b = (es : List Event) × (b ≡ fan_all es a)

fan_all-append :
    (es fs : List Event) (a : Subscribers) → fan_all (es ++ fs) a ≡ fan_all fs (fan_all es a)
fan_all-append [] fs a = refl
fan_all-append (e ∷ es) fs a = fan_all-append es fs (fan_out e a)

then_Fed : {a b c : Subscribers} → Fed a b → Fed b c → Fed a c
then_Fed {a} (es, p) (fs, q) = (es ++ fs, q ∙ ap (fan_all fs) p ∙ sym (fan_all-append es fs a))

emit-Fed : (e : Event) (s : Session) → Fed s.subscribers (emit e s).subscribers
unfolding emit
emit-Fed e s = (e ∷ [], refl)

set_state-Fed : (x : State) (s : Session) → Fed s.subscribers (set_state x s).subscribers
unfolding set_state emit_status emit
set_state-Fed x s =
    elim (state_eq s.state x)
      as (λ b.
        Fed s.subscribers (if b then s else emit_status (record s { state = x })).subscribers) [
          | true ↦ ([], refl)
          | false ↦ (status_changed (status (record s { state = x })) ∷ [], refl)
        ]

heal_turn-Fed :
    (s : Session)
    → Fed s.subscribers
        (emit (notice "the turn ended unexpectedly and was reset to idle") (
          emit
            (turn_ended failed)
            (set_state idle (reset_round (record s { turn = absent }))))).subscribers
unfolding reset_round
heal_turn-Fed s =
    let idled = set_state idle (reset_round (record s { turn = absent })) in
    then_Fed (set_state-Fed idle (reset_round (record s { turn = absent }))) (
      then_Fed (emit-Fed (turn_ended failed) idled) (
        emit-Fed (notice "the turn ended unexpectedly and was reset to idle")
          (emit (turn_ended failed) idled)))

heal_stranded-Fed : (s : Session) → Fed s.subscribers (heal_stranded s).subscribers
unfolding heal_stranded
heal_stranded-Fed s =
    let idled = set_state idle (record s { compaction = absent }) in
    let healed = emit (notice "compaction ended unexpectedly") idled in
    let turn_healed =
      emit (notice "the turn ended unexpectedly and was reset to idle")
        (emit (turn_ended failed) (set_state idle (reset_round (record s { turn = absent })))) in
    elim (state_eq s.state running && not (alive s.turn))
      as (λ b.
        Fed s.subscribers
          (if b
            then turn_healed
            else (if state_eq s.state compacting && not (alive s.compaction)
                then healed
                else s)).subscribers) [
                  | true ↦ heal_turn-Fed s
                  | false ↦
                      elim (state_eq s.state compacting && not (alive s.compaction))
                        as (λ b. Fed s.subscribers (if b then healed else s).subscribers) [
                          | true ↦
                              then_Fed (set_state-Fed idle (record s { compaction = absent }))
                                (emit-Fed (notice "compaction ended unexpectedly") idled)
                          | false ↦ ([], refl)
                        ]
                ]

start_turn-Fed : (s : Session) → Fed s.subscribers (start_turn s).subscribers
unfolding start_turn
start_turn-Fed s = set_state-Fed running s

start_queued-Fed : (s : Session) → Fed s.subscribers (start_queued s).1.subscribers
unfolding start_queued emit_status
start_queued-Fed s =
    elim s.queued
      as (λ q. Fed s.subscribers (start_queued (record s { queued = q })).1.subscribers) [
        | [] ↦ ([], refl)
        | q ∷ qs ↦
            elim s.closed
              as (λ b.
                Fed s.subscribers
                  (start_queued (record s { queued = q ∷ qs; closed = b })).1.subscribers) [
                    | true ↦ ([], refl)
                    | false ↦
                        let popped = record s { queued = qs; closed = false } in
                        then_Fed (emit-Fed (status_changed (status popped)) popped)
                          (start_turn-Fed (emit_status popped))
                  ]
      ]

inject_all-Fed :
    (fresh : ℕ → String) (qs : List QueuedSteer) (s : Session)
    → Fed s.subscribers (inject_all fresh qs s).subscribers
unfolding inject_all emit
inject_all-Fed fresh [] s = ([], refl)
inject_all-Fed fresh (q ∷ qs) s = then_Fed (_ ∷ [], refl) (inject_all-Fed fresh qs _)

inject_queued-Fed :
    (fresh : ℕ → String) (s : Session) → Fed s.subscribers (inject_queued fresh s).subscribers
unfolding inject_queued emit_status
inject_queued-Fed fresh s =
    elim (nonempty s.queued)
      as (λ b.
        Fed s.subscribers
          (if b
            then emit_status (record (inject_all fresh s.queued s) { queued = [] })
            else s).subscribers) [
              | true ↦
                  let emptied = record (inject_all fresh s.queued s) { queued = [] } in
                  then_Fed (inject_all-Fed fresh s.queued s)
                    (emit-Fed (status_changed (status emptied)) emptied)
              | false ↦ ([], refl)
            ]

end_compact-Fed : (s : Session) → Fed s.subscribers (end_compact s).1.subscribers
unfolding end_compact
end_compact-Fed s = then_Fed (set_state-Fed idle s) (
    then_Fed (start_queued-Fed (set_state idle s))
      (heal_stranded-Fed (record (start_queued (set_state idle s)).1 { compaction = absent })))

close_out-Fed :
    (outcome : TurnOutcome) (s : Session) → Fed s.subscribers (close_out outcome s).subscribers
unfolding close_out reset_round
close_out-Fed outcome s =
    then_Fed (set_state-Fed idle (reset_round s))
      (emit-Fed (turn_ended outcome) (set_state idle (reset_round s)))

if-Fed :
    {X : Type 0} {a : Subscribers} (b : Bool) (x y : X × Session)
    → Fed a x.1.subscribers
    → Fed a y.1.subscribers
    → Fed a (if b then x else y).1.subscribers
if-Fed true x y p q = p
if-Fed false x y p q = q

cmd_send-Fed :
    (stored : ImageRef → Bool) (now : String) (t : Text) (images : List ImageRef) (s : Session)
    → Fed s.subscribers (cmd_send stored now t images s).1.subscribers
unfolding cmd_send emit_status emit
cmd_send-Fed stored now t images s =
    if-Fed (not (all_stored stored images)) _ _ ([], refl)
      (if-Fed (not (state_eq s.state idle)) _ _ (_ ∷ [], refl) (start_turn-Fed s))

cmd_cancel-Fed : (s : Session) → Fed s.subscribers (cmd_cancel s).1.subscribers
unfolding cmd_cancel cancel_work
cmd_cancel-Fed s = if-Fed (state_eq s.state idle) _ _ ([], refl) ([], refl)

cmd_answer_ask-Fed :
    (id : String) (answers : Option (List Text)) (s : Session)
    → Fed s.subscribers (cmd_answer_ask id answers s).1.subscribers
unfolding cmd_answer_ask emit
cmd_answer_ask-Fed id answers s =
    elim s.pending_ask
      as (λ a.
        Fed s.subscribers
          (cmd_answer_ask id answers (record s { pending_ask = a })).1.subscribers) [
            | none ↦ ([], refl)
            | some a ↦
                if-Fed (not (a.ask_id == id)) _ _ ([], refl)
                  (if-Fed (is_some a.result) _ _ ([], refl) (ask_resolved id answers ∷ [], refl))
          ]

cmd_discard_queued-Fed : (s : Session) → Fed s.subscribers (cmd_discard_queued s).2.subscribers
unfolding cmd_discard_queued emit_status emit
cmd_discard_queued-Fed s =
    elim s.queued
      as (λ q. Fed s.subscribers (cmd_discard_queued (record s { queued = q })).2.subscribers) [
        | [] ↦ ([], refl)
        | q ∷ qs ↦ (_ ∷ [], refl)
      ]

cmd_flush_queued-Fed : (s : Session) → Fed s.subscribers (cmd_flush_queued s).1.subscribers
unfolding cmd_flush_queued cancel_work
cmd_flush_queued-Fed s =
    if-Fed (state_eq s.state idle || not (nonempty s.queued)) _ _ ([], refl) ([], refl)

-- Queues that were fed, with none that joined.
stay :
    {a b : Subscribers}
    → Fed a b
    → (es : List Event) × (joined : List ℕ) × (b ≡ fan_all es a ++ new_queues joined)
stay {a} (es, e) = (es, [], e ∙ sym (append-nil (fan_all es a)))

-- In each step of a session there is one list of events that all attached clients receive, in the
-- same order, after what they have; a client that attaches in it joins with an empty queue.
Step-fan_all :
    {s t : Session} {ins outs : List QueuedSteer}
    → Step s ins outs t
    → (es : List Event) × (joined : List ℕ) × (t.subscribers
        ≡ fan_all es s.subscribers ++ new_queues joined)
unfolding cmd_compact subscribe emit_status turn_died
Step-fan_all {s} (send stored now t images) = stay (cmd_send-Fed stored now t images s)
Step-fan_all {s} cancel = stay (cmd_cancel-Fed s)
Step-fan_all {s} (answer id answers) = stay (cmd_answer_ask-Fed id answers s)
Step-fan_all {s} discard = stay (cmd_discard_queued-Fed s)
Step-fan_all {s} flush = stay (cmd_flush_queued-Fed s)
Step-fan_all {s} (start_compact h) = stay (set_state-Fed compacting s)
Step-fan_all {s} (attach i) =
    let (es, e) = heal_stranded-Fed s in (es, i ∷ [], ap (λ q. q ++ (i, []) ∷ []) e)
Step-fan_all {s} (ask a) = stay (emit-Fed _ (record s { pending_ask = some a }))
Step-fan_all {s} ask_done = stay (emit-Fed _ (record s { pending_ask = none }))
Step-fan_all {s} (boundary fresh) = stay (inject_queued-Fed fresh s)
Step-fan_all {s} (auto_compact h) = stay (set_state-Fed compacting s)
Step-fan_all {s} auto_compact_done = stay (set_state-Fed running s)
Step-fan_all {s} finish = stay ([], refl)
Step-fan_all {s} (closed_out outcome) = stay (close_out-Fed outcome s)
Step-fan_all {s} resume = stay (start_queued-Fed s)
Step-fan_all {s} died = stay (heal_stranded-Fed (record s { turn = absent; live = s.live - 1 }))
Step-fan_all {s} compacted = stay (end_compact-Fed s)
