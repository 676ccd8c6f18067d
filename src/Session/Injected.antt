-- ===== src/Session/Injected.antt =====
-- What the steps of a session (src/xarness/session.py) add to its history: the steering messages at
-- a round boundary, and nothing else.
use xarness.Prelude.{
  ℕ, ◌-◌, ◌≡◌, sym, ap, ◌∙◌, Bool, List, [], ◌∷◌, ◌++◌, String, Text, arith, append-nil,
  append_assoc, nonempty, if◌then◌else◌,
}
use xarness.Conversation.Message.{Message, ImageRef}
use xarness.Conversation.Log.{add}
use xarness.Controller.{inject_user_message, reset_partial}
use xarness.Session.{
  State, idle, running, compacting, absent, QueuedSteer, Session, emit, emit_status, set_state,
  start_turn, cancel_work, reset_round, heal_stranded, start_queued, inject_all, inject_queued,
}
use xarness.Session.Commands.{
  cmd_send, cmd_cancel, cmd_answer_ask, cmd_discard_queued, cmd_flush_queued, cmd_compact,
  subscribe,
}
use xarness.Session.Steps.{
  close_out, turn_died, end_compact, Step, send, cancel, answer, discard, flush, start_compact,
  attach, ask, ask_done, boundary, auto_compact, auto_compact_done, finish, closed_out, resume,
  died, compacted, Run, here, next, steered, step_owed, owed,
}

abbrev pub history : Session → List Message
history s = s.controller.conversation.messages

set_state-history : (x : State) (s : Session) → history (set_state x s) ≡ history s
unfolding set_state emit_status emit
set_state-history x s = ground arith

heal_stranded-history : (s : Session) → history (heal_stranded s) ≡ history s
unfolding heal_stranded set_state emit_status emit reset_round reset_partial
heal_stranded-history s = ground arith

start_queued-history : (s : Session) → history (start_queued s).1 ≡ history s
unfolding start_queued start_turn set_state emit_status emit
start_queued-history s = ground arith

cmd_send-history :
    (stored : ImageRef → Bool) (now : String) (t : Text) (images : List ImageRef) (s : Session)
    → history (cmd_send stored now t images s).1 ≡ history s
unfolding cmd_send start_turn set_state emit_status emit
cmd_send-history stored now t images s = ground arith

inject_all-history :
    (fresh : ℕ → String) (qs : List QueuedSteer) (s : Session)
    → history (inject_all fresh qs s) ≡ history s ++ steered fresh qs
unfolding inject_all inject_user_message add steered emit
inject_all-history fresh [] s = sym (append-nil (history s))
inject_all-history fresh (q ∷ qs) s =
    inject_all-history fresh qs _ ∙ append_assoc (history s) (_ ∷ []) (steered fresh qs)

inject_queued-history :
    (fresh : ℕ → String) (s : Session)
    → history (inject_queued fresh s) ≡ history s ++ steered fresh s.queued
unfolding inject_queued emit_status emit steered
inject_queued-history fresh s =
    elim s.queued
      as (λ q.
        history (
          if nonempty q
          then emit_status (record (inject_all fresh q s) { queued = [] })
          else record s { queued = q })
        ≡ history s ++ steered fresh q) [
          | [] ↦ sym (append-nil (history s))
          | q ∷ qs ↦ inject_all-history fresh (q ∷ qs) s
        ]

end_compact-history : (s : Session) → history (end_compact s).1 ≡ history s
unfolding end_compact
end_compact-history s =
    heal_stranded-history (record (start_queued (set_state idle s)).1 { compaction = absent })
    ∙ start_queued-history (set_state idle s)
    ∙ set_state-history idle s

Step-owed :
    {s t : Session} {ins outs : List QueuedSteer} (st : Step s ins outs t)
    → history t ≡ history s ++ step_owed st
unfolding cmd_cancel cmd_answer_ask cmd_discard_queued cmd_flush_queued cmd_compact subscribe
    cancel_work emit_status emit close_out turn_died reset_round reset_partial
Step-owed {s} (send stored now t images) =
    cmd_send-history stored now t images s ∙ sym (append-nil (history s))
Step-owed {s} cancel = ground (arith, append-nil (history s))
Step-owed {s} (answer id answers) = ground (arith, append-nil (history s))
Step-owed {s} discard = ground (arith, append-nil (history s))
Step-owed {s} flush = ground (arith, append-nil (history s))
Step-owed {s} (start_compact h) = set_state-history compacting s ∙ sym (append-nil (history s))
Step-owed {s} (attach i) = heal_stranded-history s ∙ sym (append-nil (history s))
Step-owed {s} (ask a) = sym (append-nil (history s))
Step-owed {s} ask_done = sym (append-nil (history s))
Step-owed {s} (boundary fresh) = inject_queued-history fresh s
Step-owed {s} (auto_compact h) = set_state-history compacting s ∙ sym (append-nil (history s))
Step-owed {s} auto_compact_done = set_state-history running s ∙ sym (append-nil (history s))
Step-owed {s} finish = sym (append-nil (history s))
Step-owed {s} (closed_out outcome) =
    set_state-history idle (reset_round s) ∙ sym (append-nil (history s))
Step-owed {s} resume = start_queued-history s ∙ sym (append-nil (history s))
Step-owed {s} died =
    heal_stranded-history (record s { turn = absent; live = s.live - 1 })
    ∙ sym (append-nil (history s))
Step-owed {s} compacted = end_compact-history s ∙ sym (append-nil (history s))

pub Run-owed :
    {s t : Session} {ins outs : List QueuedSteer} (r : Run s ins outs t)
    → history t ≡ history s ++ owed r
Run-owed {s} here = sym (append-nil (history s))
Run-owed {s} (next r st) =
    Step-owed st
    ∙ ap (λ h. h ++ step_owed st) (Run-owed r)
    ∙ append_assoc (history s) (owed r) (step_owed st)
