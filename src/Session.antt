-- ===== src/Session.antt =====
-- The run state of `Session` in src/xarness/session.py: the state a client sees, the tasks behind
-- it, the steering queue, the pending ask and the attached clients. Persistence is in Persist, and
-- git, the sandbox and the tools are not part of it.
pub mod Commands
pub mod Rounds
pub mod Steps
pub mod Queue
pub mod Clients
pub mod Honest
pub mod Injected
pub mod Output
pub mod Executor
use xarness.Prelude.{
  ℕ, suc, ◌+◌, ◌-◌, Bool, true, false, not, ◌&&◌, ◌||◌, Option, none, some, List, [], ◌∷◌, ◌++◌,
  String, Text, Dict, nonempty, ◌==◌, length, eqb, is_some, map, if◌then◌else◌,
}
use xarness.Conversation.Message.{ImageRef, Usage, ToolStatus, Message, user, Timing}
use xarness.Conversation.Parts.{user_message}
use xarness.Protocol.{StreamEvent, PartialRound, update_call}
use xarness.Controller.{Controller, reset_partial, inject_user_message}

pub data State : Type 0 where
  idle running compacting : State

abbrev pub state_eq : State → State → Bool
state_eq idle idle = true
state_eq running running = true
state_eq compacting compacting = true
state_eq _ _ = false

-- A task as the session holds it: `absent` is `None` or a task that is done, `unwinding` one that
-- a cancellation was requested of, and `finishing` the turn in its `_close_out_turn`.
pub data Task : Type 0 where
  absent working unwinding finishing : Task

-- `_alive`
abbrev pub alive : Task → Bool
alive absent = false
alive _ = true

-- `_cancellable`
abbrev pub cancellable : Task → Bool
cancellable working = true
cancellable _ = false

-- `_QueuedSteer`, a message that waits for a round boundary.
pub record QueuedSteer : Type 0 where
  pub text : Text
  pub images : List ImageRef
  pub send_time : String

-- `PendingAsk` and its future: `none` while it is not done.
pub record PendingAsk : Type 0 where
  pub ask_id : String
  pub questions : List Text
  pub result : Option (Option (List Text))

pub data TurnOutcome : Type 0 where
  finished cancelled failed : TurnOutcome

-- The parts of a `Status` that the run state fills.
pub record Status : Type 0 where
  pub state : State
  pub usage_total : Usage
  pub last_usage : Usage
  pub queued : List (Text × List ImageRef)
  pub ask : Option String
  pub clients_attached : ℕ

-- The events that the run state makes.
pub data Event : Type 0 where
  streamed : StreamEvent → Event
  tool_exec_started : String → Event
  tool_output_delta : String → Text → Event
  tool_finished : String → ToolStatus → Text → Event
  message_added : Message → Event
  status_changed : Status → Event
  ask_resolved : String → Option (List Text) → Event
  turn_ended : TurnOutcome → Event
  notice : String → Event

-- A subscriber is a queue with its identity.
abbrev pub Subscribers : Type 0
Subscribers = List (ℕ × List Event)

-- `live` counts the turns that the event loop runs, whether or not `turn` still names them.
pub record Session : Type 0 where
  pub state : State
  pub turn : Task
  pub compaction : Task
  pub live : ℕ
  pub queued : List QueuedSteer
  pub pending_ask : Option PendingAsk
  pub pending_drift : Bool
  pub closed : Bool
  pub controller : Controller
  pub subscribers : Subscribers

-- `_track_partial`
unfoldable pub track_partial : Event → PartialRound → PartialRound
track_partial (tool_output_delta id t) p = record p {
  tool_calls = update_call id (λ c. record c { content = c.content ++ t }) p.tool_calls;
}
track_partial (tool_finished id status content) p = record p {
  tool_calls =
      update_call id (λ c. record c { status = some status; content = content }) p.tool_calls;
}
track_partial _ p = p

unfoldable pub fan_out : Event → Subscribers → Subscribers
fan_out e [] = []
fan_out e ((i, queue) ∷ subscribers) = (i, queue ++ e ∷ []) ∷ fan_out e subscribers

-- `_emit`
unfoldable pub emit : Event → Session → Session
unfolding track_partial fan_out
emit e s = record s {
  controller = record s.controller { partial_round = track_partial e s.controller.partial_round };
  subscribers = fan_out e s.subscribers;
}

abbrev pub queued_views : List QueuedSteer → List (Text × List ImageRef)
queued_views [] = []
queued_views (q ∷ qs) = (q.text, q.images) ∷ queued_views qs

-- `status`
unfoldable pub status : Session → Status
status s = record {
  state = s.state;
  usage_total = s.controller.usage_total;
  last_usage = s.controller.last_usage;
  queued = queued_views s.queued;
  ask = elim s.pending_ask [ none ↦ none | some a ↦ some a.ask_id ];
  clients_attached = length s.subscribers;
}

-- `_emit_status`
unfoldable pub emit_status : Session → Session
unfolding status emit
emit_status s = emit (status_changed (status s)) s

-- `_set_state`
unfoldable pub set_state : State → Session → Session
unfolding emit_status
set_state x s = if state_eq s.state x then s else emit_status (record s { state = x })

-- `_reset_partial`
unfoldable pub reset_round : Session → Session
reset_round s = record s { controller = reset_partial s.controller }

-- `_start_turn`, up to the turn's first step: what the turn was given is its own.
unfoldable pub start_turn : Session → Session
unfolding set_state
start_turn s = let s' = set_state running s in record s' { turn = working; live = s'.live + 1 }

abbrev pub request_cancel : Task → Task
request_cancel t = if cancellable t then unwinding else t

-- `_cancel_work`
unfoldable pub cancel_work : Session → Session
cancel_work s = record s { turn = request_cancel s.turn; compaction = request_cancel s.compaction }

-- `_heal_stranded`
unfoldable pub heal_stranded : Session → Session
unfolding reset_round set_state emit
heal_stranded s =
    if state_eq s.state running && not (alive s.turn)
    then emit (notice "the turn ended unexpectedly and was reset to idle")
        (emit (turn_ended failed) (set_state idle (reset_round (record s { turn = absent }))))
    else if state_eq s.state compacting && not (alive s.compaction)
    then emit (notice "compaction ended unexpectedly")
        (set_state idle (record s { compaction = absent }))
    else s

-- `_start_queued`: the oldest queued message starts a turn, unless the session is closed. It says
-- which message it was.
unfoldable pub start_queued : Session → Option QueuedSteer × Session
unfolding start_turn emit_status
start_queued s = elim s.queued [
  | [] ↦ (none, s)
  | q ∷ qs ↦
      if s.closed then (none, s) else (some q, start_turn (emit_status (record s { queued = qs })))
]

-- The messages of the queue in the history, with their times; `fresh` draws the ids.
unfoldable pub inject_all : (ℕ → String) → List QueuedSteer → Session → Session
unfolding emit
inject_all fresh [] s = s
inject_all fresh (q ∷ qs) s =
    let timing : Timing = record {
      send = some q.send_time;
      start = none;
      stop = none;
      reasoning_seconds = none;
    } in
    let m = user_message (fresh (length qs)) q.text q.images timing in
    inject_all fresh qs
      (emit (message_added (user m)) (record s { controller = inject_user_message m s.controller }))

-- `_inject_queued`
unfoldable pub inject_queued : (ℕ → String) → Session → Session
unfolding inject_all emit_status
inject_queued fresh s =
    if nonempty s.queued
    then emit_status (record (inject_all fresh s.queued s) { queued = [] })
    else s
