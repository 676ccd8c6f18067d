-- ===== src/Persist.antt =====
-- The background writer of src/xarness/session.py (`_persist`, `_persist_state`, `_persist_loop`)
-- over the table of session_store.py. The writer is one task: between two of its awaits the
-- session may change the conversation, and a write ends well, fails, or is cancelled. A cancelled
-- write goes on in its thread: it lands later, or is lost, with nobody waiting for it.
pub mod Synced
use xarness.Prelude.{
  ℕ, ◌≡◌, Bool, true, false, Option, none, some, List, [], ◌∷◌, ◌++◌, if◌then◌else◌,
}
use xarness.Conversation.Message.{Usage}
use xarness.Conversation.Log.{Conversation, take_dirty_from, mark_dirty}
use xarness.Conversation.Mutation.{Mutation, mutate}
use xarness.Store.{Saved, Payload, serialize_state, write_state}

-- Where the task of `_persist_loop` stands: there is none, at the head of its loop, or in
-- `to_thread(write_state, …)`.
pub data Writer : Type 0 where
  stopped : Writer
  looping : Writer
  writing : Payload → Writer

-- `abandoned` are the writes whose thread still runs though their task was cancelled.
pub record Persister : Type 0 where
  pub conversation : Conversation
  pub usage_total : Usage
  pub last_usage : Usage
  pub no_save : Bool
  pub dirty : Bool
  pub writer : Writer
  pub abandoned : List Payload
  pub saved : Saved

-- `self._persist_task is None or self._persist_task.done()`
abbrev pub started : Writer → Writer
started stopped = looping
started looping = looping
started (writing p) = writing p

-- `Session._persist`
unfoldable pub persist : Persister → Persister
persist s = if s.no_save then s else record s { dirty = true; writer = started s.writer }

-- `Session._persist_state`: the write instructions, with the watermark reset.
unfoldable pub persist_state : Persister → Payload × Persister
persist_state s =
    let (from_seq, c) = take_dirty_from s.conversation in
    (
      serialize_state s.conversation s.usage_total s.last_usage from_seq,
      record s { conversation = c },
    )

unfoldable pub start_write : Persister → Persister
unfolding persist_state
start_write s =
    let (payload, s') = persist_state s in record s' { dirty = false; writer = writing payload }

-- The head of the loop: `while self._persist_dirty`, up to the await of the write.
unfoldable pub loop_head : Persister → Persister
loop_head s = if s.dirty then start_write s else record s { writer = stopped }

unfoldable pub write_succeeds : Payload → Persister → Persister
write_succeeds payload s = record s { saved = write_state payload s.saved; writer = looping }

-- The handler of a failed write: the watermark goes back, and the task ends.
unfoldable pub write_fails : Payload → Persister → Persister
write_fails payload s = record s {
  conversation = mark_dirty payload.from_seq s.conversation;
  writer = stopped;
}

-- `except asyncio.CancelledError: raise`: the task ends, and the watermark stays where it was set when
-- the write began. A turn that is cancelled in `_flush_persist` cancels the writer that it awaits.
unfoldable pub write_cancelled : Payload → Persister → Persister
write_cancelled payload s = record s { writer = stopped; abandoned = payload ∷ s.abandoned }

pub data Step : Persister → Persister → Type 0 where
  change :
      (s : Persister) (μ : Mutation) → Step s (record s { conversation = mutate μ s.conversation })
  spend :
      (s : Persister) (total last : Usage)
      → Step s (record s { usage_total = total; last_usage = last })
  request : (s : Persister) → Step s (persist s)
  head : (s : Persister) → s.writer ≡ looping → Step s (loop_head s)
  succeed : (s : Persister) (p : Payload) → s.writer ≡ writing p → Step s (write_succeeds p s)
  fail : (s : Persister) (p : Payload) → s.writer ≡ writing p → Step s (write_fails p s)
  cancel : (s : Persister) (p : Payload) → s.writer ≡ writing p → Step s (write_cancelled p s)
  cancel_head : (s : Persister) → s.writer ≡ looping → Step s (record s { writer = stopped })
  land :
      (s : Persister) (before after : List Payload) (p : Payload)
      → s.abandoned ≡ before ++ p ∷ after
      → Step s (record s { saved = write_state p s.saved; abandoned = before ++ after })
  lose :
      (s : Persister) (before after : List Payload) (p : Payload)
      → s.abandoned ≡ before ++ p ∷ after
      → Step s (record s { abandoned = before ++ after })

pub data Reach (s : Persister) : Persister → Type 0 where
  here : Reach s s
  next : {t u : Persister} → Reach s t → Step t u → Reach s u
