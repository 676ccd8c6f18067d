-- ===== src/Tests/Saving.antt =====
-- The theorems on session_store.py and the background writer at concrete inputs.
use xarness.Prelude.{◌≡◌, refl, false, none, [], ◌∷◌, arith}
use xarness.Conversation.Message.{user, no_usage}
use xarness.Conversation.Log.{take_dirty_from, last_summary, summary_below}
use xarness.Conversation.Mutation.{append, mutate}
use xarness.Store.{Saved, Payload, ok, serialize_state, write_state, load_state}
use xarness.Store.Rows.{number}
use xarness.Store.Sync.{load_state-write_state}
use xarness.Persist.{
  Persister, stopped, persist, persist_state, start_write, loop_head, write_succeeds, write_fails,
  write_cancelled, cancel, land, lose, change, request, head, succeed, fail, Reach, here, next,
}
use xarness.Tests.Data.{question, chat, clean}

abbrev on_disk : Saved
on_disk = record { rows = (0, user question) ∷ []; state = none }

load_state-write_state_example :
    load_state
      (write_state (serialize_state chat no_usage no_usage (take_dirty_from chat).0) on_disk)
    ≡ ok (record {
      conversation = (take_dirty_from chat).1;
      usage_total = no_usage;
      last_usage = no_usage;
    })
load_state-write_state_example =
    load_state-write_state chat no_usage no_usage (user question ∷ []) on_disk
      (unfold last_summary summary_below in refl) (unfold number in refl) (omega arith, refl)

abbrev start : Persister
start = record {
  conversation = clean;
  usage_total = no_usage;
  last_usage = no_usage;
  no_save = false;
  dirty = false;
  writer = stopped;
  abandoned = [];
  saved = record { rows = []; state = none };
}

abbrev changed : Persister
changed = record start { conversation = mutate (append (user question)) start.conversation }

abbrev requested : Persister
requested = persist changed

abbrev written : Payload
written = (persist_state requested).0

-- A message is added, its write is cancelled and lands; the next write, of nothing new, fails, and
-- a write is asked for again.
abbrev landed : Persister
landed = record (write_cancelled written (loop_head requested)) {
  saved = write_state written (write_cancelled written (loop_head requested)).saved;
  abandoned = [];
}

abbrev again : Payload
again = (persist_state (persist landed)).0

abbrev failed : Persister
failed = persist (write_fails again (loop_head (persist landed)))

to-failed : Reach start failed
unfolding persist loop_head start_write write_fails write_cancelled
to-failed =
    next
      (next
        (next
          (next
            (next
              (next
                (next (next (next here (change start (append (user question)))) (request changed))
                  (head requested refl))
                (cancel (loop_head requested) written refl))
              (land (write_cancelled written (loop_head requested)) [] [] written refl))
            (request landed))
          (head (persist landed) refl))
        (fail (loop_head (persist landed)) again refl))
      (request (write_fails again (loop_head (persist landed))))

-- A message is added, written, and the writer finds nothing more to do.
abbrev rested : Persister
rested = loop_head (write_succeeds written (loop_head requested))

to-rested : Reach start rested
unfolding persist loop_head start_write write_succeeds
to-rested =
    next
      (next
        (next (next (next here (change start (append (user question)))) (request changed))
          (head requested refl))
        (succeed (loop_head requested) written refl))
      (head (write_succeeds written (loop_head requested)) refl)

-- Where the cancelled write is lost, nothing is marked as unsaved and the disk lacks the message.
abbrev stranded : Persister
stranded = record (write_cancelled written (loop_head requested)) { abandoned = [] }

to-stranded : Reach start stranded
unfolding persist loop_head start_write write_cancelled
to-stranded =
    next
      (next
        (next (next (next here (change start (append (user question)))) (request changed))
          (head requested refl))
        (cancel (loop_head requested) written refl))
      (lose (write_cancelled written (loop_head requested)) [] [] written refl)

stranded-unsaved :
    (stranded.writer ≡ stopped)
    × (stranded.conversation.dirty_from ≡ none)
    × (stranded.saved.rows ≡ [])
    × (stranded.conversation.messages ≡ user question ∷ [])
unfolding persist loop_head start_write write_cancelled take_dirty_from mutate
    xarness.Conversation.Log.add
stranded-unsaved = (refl, refl, refl, refl)
