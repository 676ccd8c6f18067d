-- ===== src/Session/Commands.antt =====
-- The commands of src/xarness/session.py on the run state (`_cmd_send`, `_cmd_cancel`,
-- `_cmd_answer_ask`, `_cmd_discard_queued`, `_cmd_flush_queued`, `_cmd_compact`), the guard of
-- `_dispatch`, and what a client asks of the state (`subscribe`, `quit_verdict`, `summary`).
use xarness.Prelude.{
  ℕ, ◌-◌, Bool, true, false, not, ◌&&◌, ◌||◌, Option, none, some, List, [], ◌∷◌, ◌++◌, String, Text,
  nonempty, ◌==◌, length, eqb, is_some, if◌then◌else◌,
}
use xarness.Conversation.Message.{ImageRef}
use xarness.Session.{
  State, idle, running, compacting, state_eq, working, QueuedSteer, Session, ask_resolved, emit,
  emit_status, set_state, start_turn, cancel_work, heal_stranded,
}

-- The commands of protocol/commands.py. Those that git, the sandbox or the configuration answer
-- are told apart by their name alone.
pub data Command : Type 0 where
  send_message : Text → List ImageRef → Command
  cancel : Command
  answer_ask : String → Option (List Text) → Command
  discard_queued : Command
  flush_queued : Command
  compact : Command
  rollback resolve_drift accept reject set_mode switch_model set_sandbox filter_path ref_path :
      Command

-- What a `CommandResult` says, and the text of a `SessionError`.
pub data Reply : Type 0 where
  started queued ok : Reply
  was_cancelled : Bool → Reply
  discarded : Option Text → Reply
  flushed : Bool → Reply
  error : String → Reply

-- `isinstance(command, IDLE_ONLY)`
abbrev pub is_idle_only : Command → Bool
is_idle_only rollback = true
is_idle_only compact = true
is_idle_only switch_model = true
is_idle_only set_sandbox = true
is_idle_only filter_path = true
is_idle_only ref_path = true
is_idle_only _ = false

-- `isinstance(command, LOCK_FREE)`
abbrev pub is_lock_free : Command → Bool
is_lock_free cancel = true
is_lock_free (answer_ask id answers) = true
is_lock_free _ = false

-- Whether the image store has the bytes of every image.
abbrev pub all_stored : (ImageRef → Bool) → List ImageRef → Bool
all_stored stored [] = true
all_stored stored (i ∷ is) = stored i && all_stored stored is

-- `_cmd_send` at the time `now`.
unfoldable pub cmd_send :
    (ImageRef → Bool) → String → Text → List ImageRef → Session → Reply × Session
unfolding emit_status start_turn
cmd_send stored now t images s =
    if not (all_stored stored images)
    then (error "image was never uploaded", s)
    else if not (state_eq s.state idle)
    then (
      queued,
      emit_status (record s {
        queued = s.queued ++ record { text = t; images = images; send_time = now } ∷ [];
      }),
    )
    else (started, start_turn s)

-- `_cmd_cancel`
unfoldable pub cmd_cancel : Session → Reply × Session
unfolding cancel_work
cmd_cancel s =
    if state_eq s.state idle then (was_cancelled false, s) else (was_cancelled true, cancel_work s)

-- `_cmd_answer_ask`: the first answer wins.
unfoldable pub cmd_answer_ask : String → Option (List Text) → Session → Reply × Session
unfolding emit
cmd_answer_ask id answers s = elim s.pending_ask [
  | none ↦ (error "no ask is pending with that id", s)
  | some ask ↦
      if not (ask.ask_id == id)
      then (error "no ask is pending with that id", s)
      else if is_some ask.result
      then (error "the ask was already answered", s)
      else (
        ok,
        emit (ask_resolved id answers)
            (record s { pending_ask = some (record ask { result = some answers }) }),
      )
]

-- `_cmd_discard_queued`, with the message that was taken.
unfoldable pub cmd_discard_queued : Session → Reply × Option QueuedSteer × Session
unfolding emit_status
cmd_discard_queued s = elim s.queued [
  | [] ↦ (discarded none, none, s)
  | q ∷ qs ↦ (discarded (some q.text), some q, emit_status (record s { queued = qs }))
]

-- `_cmd_flush_queued`
unfoldable pub cmd_flush_queued : Session → Reply × Session
unfolding cancel_work
cmd_flush_queued s =
    if state_eq s.state idle || not (nonempty s.queued)
    then (flushed false, s)
    else (flushed true, cancel_work s)

-- `_cmd_compact`
unfoldable pub cmd_compact : Session → Reply × Session
unfolding set_state
cmd_compact s = (started, record (set_state compacting s) { compaction = working })

module _ (stored : ImageRef → Bool) (now : String)
    (other : Command → Session → Reply × Session) where
  handle : Command → Session → Reply × Session
  unfolding cmd_send cmd_cancel cmd_answer_ask cmd_discard_queued cmd_flush_queued cmd_compact
  handle (send_message t images) s = cmd_send stored now t images s
  handle cancel s = cmd_cancel s
  handle (answer_ask id answers) s = cmd_answer_ask id answers s
  handle discard_queued s = let (reply, _, s') = cmd_discard_queued s in (reply, s')
  handle flush_queued s = cmd_flush_queued s
  handle compact s = cmd_compact s
  handle c s = other c s

  -- `_dispatch`, with `other` for the commands that git, the sandbox and the configuration answer.
  unfoldable pub dispatch : Command → Session → Reply × Session
  unfolding handle
  dispatch c s =
      if is_idle_only c && not (state_eq s.state idle)
      then (error "wait for the current turn or compaction to finish first", s)
      else handle c s

-- `subscribe`, less the snapshot that it returns: a queue with no event yet.
unfoldable pub subscribe : ℕ → Session → Session
unfolding heal_stranded
subscribe i s =
    let healed = heal_stranded s in
    record healed { subscribers = healed.subscribers ++ (i, []) ∷ [] }

-- `is_active`
unfoldable pub is_active : Session → Bool
is_active s = not (state_eq s.state idle) || is_some s.pending_ask || nonempty s.subscribers

-- `quit_verdict`: whether to ask, and the other clients.
unfoldable pub quit_verdict : Session → Bool × ℕ
quit_verdict s =
    let others = length s.subscribers - 1 in
    (
      (state_eq s.state running || state_eq s.state compacting || is_some s.pending_ask)
          && eqb others 0,
      others,
    )

-- The state of a `summary`.
pub data Row : Type 0 where
  at_state : State → Row
  waiting saved : Row

unfoldable pub summary_state : Session → Row
unfolding is_active
summary_state s =
    if not (is_active s)
    then saved
    else if is_some s.pending_ask || (s.pending_drift && state_eq s.state idle)
    then waiting
    else at_state s.state
