-- ===== src/Store/Sync.antt =====
-- The message table of src/xarness/session_store.py against the history in memory.
use xarness.Prelude.{
  ℕ, ◌≤◌, ◌≡◌, refl, sym, ap, subst, ◌∙◌, Option, none, some, List, arith, length, take, drop, min,
  take-append-drop, take-take, length-take,
}
use xarness.Conversation.Message.{Message, Usage}
use xarness.Conversation.Log.{Conversation, lowest, watermark, take_dirty_from}
use xarness.Conversation.Indexed.{IsIndexed}
use xarness.Conversation.Mutation.Kept.{Changes, untouched, rewritten}
use xarness.Store.{
  Saved, ok, schema_version, serialize_state, write_state, load_state, delete_from, insert_all,
}
use xarness.Store.Rows.{number, delete_from-number, insert_all-number, select_messages-number}

-- What the watermark claims: all is on disk, or the messages before it are.
abbrev pub Agree : Option ℕ → List Message → List Message → Type 0
Agree none disk ms = disk ≡ ms
Agree (some k) disk ms = (k ≤ length ms) × (take k disk ≡ take k ms)

take-min :
    (i k : ℕ) (disk ms ms' : List Message)
    → take k disk ≡ take k ms
    → take i ms' ≡ take i ms
    → take (min k i) disk ≡ take (min k i) ms'
take-min i k disk ms ms' p q =
    sym (take-take (min k i) k disk (omega arith))
    ∙ ap (take (min k i)) p
    ∙ take-take (min k i) k ms (omega arith)
    ∙ sym (take-take (min k i) i ms (omega arith))
    ∙ ap (take (min k i)) (sym q)
    ∙ take-take (min k i) i ms' (omega arith)

pub Agree-lowest :
    (i : ℕ) (d : Option ℕ) (disk ms ms' : List Message)
    → i ≤ length ms'
    → take i ms' ≡ take i ms
    → Agree d disk ms
    → Agree (some (lowest i d)) disk ms'
Agree-lowest i none disk ms ms' p q h = (p, rw h (sym q))
Agree-lowest i (some k) disk ms ms' p q (n, h) = (omega arith, take-min i k disk ms ms' h q)

-- A change of the conversation keeps the claim.
pub Agree-Changes :
    (disk : List Message) {c c' : Conversation}
    → Changes c c'
    → Agree c.dirty_from disk c.messages
    → Agree c'.dirty_from disk c'.messages
Agree-Changes disk (untouched m d) h = rw (m, d) h
Agree-Changes disk {c} {c'} (rewritten i p p' q d) h =
    rw d (Agree-lowest i c.dirty_from disk c.messages c'.messages p' q h)

-- So it does with the watermark lowered to `f` on both sides, as after a failed write.
pub Agree-Changes_marked :
    (f : ℕ) (disk : List Message) {c c' : Conversation}
    → Changes c c'
    → Agree (some (lowest f c.dirty_from)) disk c.messages
    → Agree (some (lowest f c'.dirty_from)) disk c'.messages
Agree-Changes_marked f disk (untouched m d) h = rw (m, d) h
Agree-Changes_marked f disk {c} {c'} (rewritten i p p' q d) h = rw d (
    let e : lowest f (some (lowest i c.dirty_from)) ≡ lowest i (some (lowest f c.dirty_from)) =
      ground arith in
    rw e (Agree-lowest i (some (lowest f c.dirty_from)) disk c.messages c'.messages p' q h))

-- A write from `start` onto rows that agree below `start`.
write-number :
    (start : ℕ) (disk ms : List Message)
    → start ≤ length ms
    → take start disk ≡ take start ms
    → insert_all start (drop start ms) (delete_from start (number 0 disk)) ≡ number 0 ms
write-number start disk ms h e =
    let deleted : delete_from start (number 0 disk) ≡ number 0 (take start ms) = rw (← e) (
      subst (λ n. delete_from n (number 0 disk) ≡ number 0 (take start disk)) (omega arith)
        (delete_from-number 0 start disk)) in
    rw deleted (
      insert_all-number start (drop start ms) (take start ms) (omega (arith, length-take start ms))
      ∙ rw (take-append-drop start ms))

pub Agree-take :
    (d : Option ℕ) (disk ms : List Message)
    → Agree d disk ms
    → let start = min (watermark (length ms) d) (length ms) in take start disk ≡ take start ms
Agree-take none disk ms h = rw h
Agree-take (some k) disk ms (n, h) = let e : min k (length ms) ≡ k = omega arith in rw e h

-- A write of the conversation from its watermark leaves exactly its messages on disk.
pub write_state-serialize_state :
    (c : Conversation) (total last : Usage) (disk : List Message) (saved : Saved)
    → saved.rows ≡ number 0 disk
    → Agree c.dirty_from disk c.messages
    → (write_state (serialize_state c total last (take_dirty_from c).0) saved).rows
      ≡ number 0 c.messages
unfolding write_state serialize_state take_dirty_from
write_state-serialize_state c total last disk saved e h =
    let start = min (watermark (length c.messages) c.dirty_from) (length c.messages) in
    rw e
      (write-number start disk c.messages (omega arith) (Agree-take c.dirty_from disk c.messages h))

loaded :
    (c : Conversation) (total last : Usage) (saved : Saved)
    → IsIndexed c
    → saved.state
      ≡ some (record {
        schema = schema_version;
        turns = c.turns;
        usage_total = total;
        last_usage = last;
      })
    → saved.rows ≡ number 0 c.messages
    → load_state saved
      ≡ ok (record { conversation = (take_dirty_from c).1; usage_total = total; last_usage = last })
unfolding load_state take_dirty_from
loaded c total last saved v e h = rw (e, h, select_messages-number 0 c.messages, v)

-- A session that is written and loaded again is the one in memory, all of it saved: the messages,
-- the turns, the visible slice and the totals.
pub load_state-write_state :
    (c : Conversation) (total last : Usage) (disk : List Message) (saved : Saved)
    → IsIndexed c
    → saved.rows ≡ number 0 disk
    → Agree c.dirty_from disk c.messages
    → load_state (write_state (serialize_state c total last (take_dirty_from c).0) saved)
      ≡ ok (record { conversation = (take_dirty_from c).1; usage_total = total; last_usage = last })
load_state-write_state c total last disk saved v e h =
    loaded c total last (write_state (serialize_state c total last (take_dirty_from c).0) saved) v
      (unfold write_state serialize_state in refl)
      (write_state-serialize_state c total last disk saved e h)
