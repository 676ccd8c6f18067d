-- ===== src/Session/Honest.antt =====
-- What an attaching client is shown (`subscribe`, `_heal_stranded` of src/xarness/session.py), and
-- the two ways in which a session comes to run a second turn beside the first.
use xarness.Prelude.{ℕ, ◌+◌, ◌≡◌, refl, Bool, true, false, some, List, [], ◌∷◌, String, Text, arith}
use xarness.Conversation.Message.{ImageRef}
use xarness.Session.{
  idle, running, compacting, absent, working, alive, QueuedSteer, Session, emit, emit_status,
  set_state, start_turn, reset_round, heal_stranded, start_queued, TurnOutcome,
}
use xarness.Session.Commands.{started, was_cancelled, cmd_send, cmd_cancel, subscribe}
use xarness.Session.Steps.{close_out}

-- A session that claims a turn or a compaction has a task that does it.
pub record IsHonest (s : Session) : Type 0 where
  pub turn : s.state ≡ running → alive s.turn ≡ true
  pub compaction : s.state ≡ compacting → alive s.compaction ≡ true

heal_stranded-IsHonest : (s : Session) → IsHonest (heal_stranded s)
unfolding heal_stranded set_state emit_status emit reset_round
heal_stranded-IsHonest s = record { turn = ground arith; compaction = ground arith }

-- Whatever stranded a session, a client that attaches is never shown a turn that no task runs, nor
-- a compaction that no task runs.
pub subscribe-IsHonest : (i : ℕ) (s : Session) → IsHonest (subscribe i s)
unfolding subscribe
subscribe-IsHonest i s =
    let h = heal_stranded-IsHonest s in record { turn = h.turn; compaction = h.compaction }

-- In a compaction that a turn does itself, where there is no compaction task, a client that
-- attaches sets the session idle although the turn is alive: a cancel then does nothing, and a
-- send starts another turn beside it.
pub subscribe-auto_compact :
    (i : ℕ) (stored : ImageRef → Bool) (now : String) (t : Text) (s : Session)
    → s.state ≡ compacting
    → s.compaction ≡ absent
    → s.turn ≡ working
    → let attached = subscribe i s in
      (attached.state ≡ idle)
      × (attached.turn ≡ working)
      × ((cmd_cancel attached).0 ≡ was_cancelled false)
      × ((cmd_send stored now t [] attached).0 ≡ started)
      × ((cmd_send stored now t [] attached).1.live ≡ s.live + 1)
unfolding subscribe heal_stranded set_state emit_status emit cmd_cancel cmd_send start_turn
subscribe-auto_compact i stored now t s h c w = rw (h, c, w) (refl, refl, refl, refl, refl)

-- Where messages are queued when a turn ends, on a session that is not closed, a send that comes
-- before the turn's task takes the queue up starts a turn, and the task starts another beside it.
pub close_out-two_turns :
    (outcome : TurnOutcome) (stored : ImageRef → Bool) (now : String) (t : Text) (q : QueuedSteer)
    (qs : List QueuedSteer) (s : Session)
    → s.queued ≡ q ∷ qs
    → s.closed ≡ false
    → let ended = close_out outcome s in
      let sent = (cmd_send stored now t [] ended).1 in
      ((start_queued sent).0 ≡ some q) × ((start_queued sent).1.live ≡ ended.live + 2)
unfolding close_out set_state emit_status emit reset_round cmd_send start_queued start_turn
close_out-two_turns outcome stored now t q qs s e c = ground arith
