-- ===== src/Conversation/Mutation/Kept.antt =====
-- Each change of a `Conversation` (src/xarness/conversation.py) keeps the visible index right, and
-- lowers the persist watermark to a place up to which the messages did not move.
use xarness.Prelude.{
  ℕ, ◌≤◌, ◌≡◌, refl, Option, none, some, List, [], ◌∷◌, String, arith, length, take, min,
  length-append, length-take, take-append, take-take, Option-cases, inl, inr,
}
use xarness.Conversation.Message.{Message}
use xarness.Conversation.Log.{Conversation, lowest, add}
use xarness.Conversation.Turns
use xarness.Conversation.Turns.{close_crashed_turns, lock_turns, open_turn}
use xarness.Conversation.Rollback.{RollbackPlan, apply_rollback}
use xarness.Conversation.Repair.{repair_orphaned_tool_calls, finish_repair}
use xarness.Conversation.Repair.Kept.{AtLowest}
use xarness.Conversation.Repair.Valid.{repair-IsIndexed, repair_by_finish}
use xarness.Conversation.Indexed.{IsIndexed, add-IsIndexed}
use xarness.Conversation.Mutation.{
  Mutation, append, rollback, repair, begin_turn, finish_turn, close_crashed, lock, mutate,
  mutate_all,
}

-- The messages of `c'` and `c` agree up to an index to which the watermark was lowered, or nothing
-- of the messages and the watermark changed.
pub data Changes (c c' : Conversation) : Type 0 where
  untouched : c'.messages ≡ c.messages → c'.dirty_from ≡ c.dirty_from → Changes c c'
  rewritten :
      (i : ℕ)
      → i ≤ length c.messages
      → i ≤ length c'.messages
      → take i c'.messages ≡ take i c.messages
      → c'.dirty_from ≡ some (lowest i c.dirty_from)
      → Changes c c'

add-Changes : (m : Message) (c : Conversation) → Changes c (add m c)
unfolding add
add-Changes m c =
    rewritten (length c.messages) (omega arith) (omega (arith, length-append c.messages (m ∷ [])))
      (take-append (length c.messages) c.messages (m ∷ []) (omega arith)) refl

rollback-Changes : (plan : RollbackPlan) (c : Conversation) → Changes c (apply_rollback plan c)
unfolding apply_rollback
rollback-Changes plan c =
    let n = min plan.drop_from (length (take plan.drop_from c.messages)) in
    rewritten n (omega (arith, length-take plan.drop_from c.messages))
      (omega (arith, length-take plan.drop_from c.messages))
      (take-take n plan.drop_from c.messages (omega arith)) refl

finish_repair-Changes :
    (c : Conversation) (ms : List Message) (l : Option ℕ)
    → AtLowest 0 c.messages ms l
    → Changes c (finish_repair c ms l).0
unfolding finish_repair
finish_repair-Changes c ms none h = untouched refl refl
finish_repair-Changes c ms (some l) (j, e, p, q, r) =
    let l_j : l ≡ j = omega arith in rw l_j (rewritten j p q r refl)

finish_turn_messages :
    (snapshot : Option (Option String)) (c : Conversation)
    → ((Turns.finish_turn snapshot c).messages ≡ c.messages)
      × ((Turns.finish_turn snapshot c).dirty_from ≡ c.dirty_from)
      × ((Turns.finish_turn snapshot c).visible_from ≡ c.visible_from)
unfolding Turns.finish_turn
finish_turn_messages snapshot c = elim (Option-cases (open_turn c)) [
  | inl e ↦ rw (e, Turns.finish_turn) (refl, refl, refl)
  | inr (t, e) ↦ rw (e, Turns.finish_turn) (refl, refl, refl)
]

repair-Changes :
    (fresh : ℕ → String) (now : Option String) (c : Conversation)
    → Changes c (repair_orphaned_tool_calls fresh now c).0
repair-Changes fresh now c =
    let (ms, l, e, h) = repair_by_finish fresh now c in rw e (finish_repair-Changes c ms l h)

pub mutate-Changes : (μ : Mutation) (c : Conversation) → Changes c (mutate μ c)
unfolding mutate Turns.begin_turn close_crashed_turns lock_turns
mutate-Changes (append m) c = add-Changes m c
mutate-Changes (rollback plan) c = rollback-Changes plan c
mutate-Changes (repair fresh now) c = repair-Changes fresh now c
mutate-Changes (begin_turn m tree) c = untouched refl refl
mutate-Changes (finish_turn snapshot) c =
    let (m, d, v) = finish_turn_messages snapshot c in untouched m d
mutate-Changes close_crashed c = untouched refl refl
mutate-Changes (lock tree) c = untouched refl refl

-- Every change leaves the index of the visible slice at the last summary.
pub mutate-IsIndexed : (μ : Mutation) (c : Conversation) → IsIndexed c → IsIndexed (mutate μ c)
unfolding mutate Turns.begin_turn close_crashed_turns lock_turns apply_rollback
mutate-IsIndexed (append m) c h = add-IsIndexed m c h
mutate-IsIndexed (rollback plan) c h = refl
mutate-IsIndexed (repair fresh now) c h = repair-IsIndexed fresh now c h
mutate-IsIndexed (begin_turn m tree) c h = h
mutate-IsIndexed (finish_turn snapshot) c h =
    let (m, d, v) = finish_turn_messages snapshot c in rw (m, v) h
mutate-IsIndexed close_crashed c h = h
mutate-IsIndexed (lock tree) c h = h

-- Where the visible slice starts at the last summary, it does so after any sequence of changes.
pub mutate_all-IsIndexed :
    (μs : List Mutation) (c : Conversation) → IsIndexed c → IsIndexed (mutate_all μs c)
unfolding mutate_all
mutate_all-IsIndexed [] c h = h
mutate_all-IsIndexed (μ ∷ μs) c h = mutate_all-IsIndexed μs (mutate μ c) (mutate-IsIndexed μ c h)
