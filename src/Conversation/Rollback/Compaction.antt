-- ===== src/Conversation/Rollback/Compaction.antt =====
-- Undoing a compaction (src/xarness/conversation.py: `add` of a summary, then `rollback_plan` and
-- `apply_rollback`).
use xarness.Prelude.{
  ◌+◌, ◌-◌, ◌≡◌, refl, sym, ap, subst, ◌∙◌, true, some, [], ◌∷◌, ◌++◌, String, contains, lookup,
  lookup-filter_key, arith, length, last?-append, length-append, take-length-append, if◌then◌else◌,
}
use xarness.Conversation.Message.{Message, is_summary}
use xarness.Conversation.Log.{Conversation, add, visible_messages}
use xarness.Conversation.Indexed.{IsIndexed}
use xarness.Conversation.Rollback.{
  RollbackPlan, compaction_plan, summary_is_last, plan_of_turn, rollback_plan, apply_rollback, ids,
}

summary_first :
    (c : Conversation)
    → summary_is_last c.messages ≡ true
    → rollback_plan c ≡ some (compaction_plan (length c.messages))
unfolding rollback_plan
summary_first c h =
    subst
      (λ b.
        (if b then some (compaction_plan (length c.messages)) else plan_of_turn c)
        ≡ some (compaction_plan (length c.messages)))
      (sym h) refl

module _ (summary : Message) (c : Conversation) where
  abbrev pub undone : Conversation
  undone = apply_rollback (compaction_plan (length c.messages + 1)) (add summary c)

  undone-messages : undone.messages ≡ c.messages
  unfolding apply_rollback add
  undone-messages =
      let e : length c.messages + 1 - 1 ≡ length c.messages = omega arith in
      rw e (take-length-append c.messages (summary ∷ []))

  -- Where a summary was appended to a conversation whose visible slice starts at its last
  -- summary, the next undo takes back just that compaction: the history and the visible slice are
  -- those from before it, and no turn is reverted.
  pub rollback-compaction :
      is_summary summary ≡ true
      → IsIndexed c
      → (plan : RollbackPlan) × (rollback_plan (add summary c) ≡ some plan)
        × (plan.revert_turns ≡ [])
        × ((apply_rollback plan (add summary c)).messages ≡ c.messages)
        × (visible_messages (apply_rollback plan (add summary c)) ≡ visible_messages c)
  unfolding apply_rollback add
  rollback-compaction s v =
      let e : length (c.messages ++ summary ∷ []) ≡ length c.messages + 1 =
        length-append c.messages (summary ∷ []) in
      (
        compaction_plan (length c.messages + 1),
        summary_first (add summary c) (rw (last?-append c.messages summary, summary_is_last) s)
            ∙ ap (λ n. some (compaction_plan n)) e,
        refl,
        undone-messages,
        rw (undone-messages, v),
      )

  -- Appending a summary and undoing it leaves the checkpoint of every message of the history as it
  -- was.
  pub lookup-rollback_compaction :
      (k : String) → contains k (ids c.messages) ≡ true → lookup k undone.turns ≡ lookup k c.turns
  unfolding apply_rollback add
  lookup-rollback_compaction k h =
      rw (lookup-filter_key (λ j. contains j (ids undone.messages)) k c.turns, undone-messages, h)
