-- ===== src/Session/Steps.antt =====
-- What happens to a session between two awaits of its tasks (src/xarness/session.py), as steps
-- that say which steering messages came into the queue and which left it.
use xarness.Prelude.{
  ℕ, ◌-◌, ◌≡◌, Bool, Option, none, some, List, [], ◌∷◌, ◌++◌, String, Text, length,
}
use xarness.Conversation.Message.{Message, user, ImageRef}
use xarness.Conversation.Parts.{user_message}
use xarness.Session.{
  idle, running, compacting, absent, finishing, QueuedSteer, PendingAsk, Session, TurnOutcome,
  turn_ended, emit, emit_status, set_state, reset_round, heal_stranded, start_queued, inject_queued,
}
use xarness.Session.Commands.{
  Reply, cmd_send, cmd_cancel, cmd_answer_ask, cmd_discard_queued, cmd_flush_queued, cmd_compact,
  subscribe,
}

-- `_close_out_turn` after its writes, up to its next await.
unfoldable pub close_out : TurnOutcome → Session → Session
unfolding reset_round set_state emit
close_out outcome s = record (emit (turn_ended outcome) (set_state idle (reset_round s))) {
  turn = absent;
  live = s.live - 1;
}

-- `_on_turn_done` for a turn that never came to its teardown.
unfoldable pub turn_died : Session → Session
unfolding heal_stranded
turn_died s = heal_stranded (record s { turn = absent; live = s.live - 1 })

-- The end of `_run_compact`, and its done callback.
unfoldable pub end_compact : Session → Option QueuedSteer × Session
unfolding set_state start_queued heal_stranded
end_compact s =
    let (taken, s') = start_queued (set_state idle s) in
    (taken, heal_stranded (record s' { compaction = absent }))

abbrev pub listed : Option QueuedSteer → List QueuedSteer
listed none = []
listed (some q) = q ∷ []

-- The message that a send puts into the queue.
abbrev pub accepted : Reply → String → Text → List ImageRef → List QueuedSteer
accepted Reply.queued now t images = record { text = t; images = images; send_time = now } ∷ []
accepted _ now t images = []

-- `Step s ins outs t`: from `s` to `t`, while `ins` came in and `outs` left.
pub data Step (s : Session) : List QueuedSteer → List QueuedSteer → Session → Type 0 where
  send :
      (stored : ImageRef → Bool) (now : String) (t : Text) (images : List ImageRef)
      → Step s
          (accepted (cmd_send stored now t images s).0 now t images)
          []
          (cmd_send stored now t images s).1
  cancel : Step s [] [] (cmd_cancel s).1
  answer :
      (id : String) (answers : Option (List Text)) → Step s [] [] (cmd_answer_ask id answers s).1
  discard : Step s [] (listed (cmd_discard_queued s).1) (cmd_discard_queued s).2
  flush : Step s [] [] (cmd_flush_queued s).1
  start_compact : s.state ≡ idle → Step s [] [] (cmd_compact s).1
  attach : (i : ℕ) → Step s [] [] (subscribe i s)
  ask : (a : PendingAsk) → Step s [] [] (emit_status (record s { pending_ask = some a }))
  ask_done : Step s [] [] (emit_status (record s { pending_ask = none }))
  boundary : (fresh : ℕ → String) → Step s [] s.queued (inject_queued fresh s)
  auto_compact : s.state ≡ running → Step s [] [] (set_state compacting s)
  auto_compact_done : Step s [] [] (set_state running s)
  finish : Step s [] [] (record s { turn = finishing })
  closed_out : (outcome : TurnOutcome) → Step s [] [] (close_out outcome s)
  resume : Step s [] (listed (start_queued s).0) (start_queued s).1
  died : Step s [] [] (turn_died s)
  compacted : Step s [] (listed (end_compact s).0) (end_compact s).1

pub data Run (s : Session) : List QueuedSteer → List QueuedSteer → Session → Type 0 where
  here : Run s [] [] s
  next :
      {ins outs ins' outs' : List QueuedSteer} {t u : Session}
      → Run s ins outs t
      → Step t ins' outs' u
      → Run s (ins ++ ins') (outs ++ outs') u

-- A queue as messages of the history, each with the time it was sent at.
unfoldable pub steered : (ℕ → String) → List QueuedSteer → List Message
steered fresh [] = []
steered fresh (q ∷ qs) =
    user (
      user_message (fresh (length qs)) q.text q.images
        (record { send = some q.send_time; start = none; stop = none; reasoning_seconds = none }))
    ∷ steered fresh qs

-- The messages that a round boundary owes to the history.
abbrev pub step_owed :
    {s t : Session} {ins outs : List QueuedSteer} → Step s ins outs t → List Message
step_owed {s} (boundary fresh) = steered fresh s.queued
step_owed _ = []

abbrev pub owed : {s t : Session} {ins outs : List QueuedSteer} → Run s ins outs t → List Message
owed here = []
owed (next r st) = owed r ++ step_owed st
