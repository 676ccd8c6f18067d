-- ===== src/Conversation/Rollback/Plan.antt =====
-- What a rollback plan of src/xarness/conversation.py drops and reverts.
use mathlib.Core.List.{reverse}
use xarness.Prelude.{
  ℕ, zero, suc, ◌+◌, ◌<◌, ◌≡◌, refl, sym, ap, ◌∙◌, Bool, true, false, none, some, Option-cases,
  Bool-cases, inl, inr, List, [], ◌∷◌, ◌++◌, String, contains, lookup, lookup-filter_key, eq_iff,
  ◌==◌, arith, length, get_elem?, take, drop, take-append-drop, if◌then◌else◌,
}
use xarness.Conversation.Message.{Message, message_id, is_user, is_summary, content}
use xarness.Conversation.Log.{Conversation}
use xarness.Conversation.Turns.{turn_checkpoints, reversible_of}
use xarness.Conversation.Turns.Reversible.{
  AllIds, reversible_of-append, reversible_of-reverse, reversible_of-filter,
}
use xarness.Conversation.Rollback.{RollbackPlan, index_from, rollback_plan_to, apply_rollback, ids}

contains-ids :
    (pre : String → Bool) (ms : List Message)
    → ((x : String) → contains x (ids ms) ≡ true → pre x ≡ true)
    → AllIds pre ms
contains-ids pre [] h = tt
contains-ids pre (m ∷ ms) h = (
  h (message_id m) (ground (arith, eq_iff (message_id m) (message_id m))),
  contains-ids pre ms (λ x e. h x (ground arith)),
)

-- `index_from` finds the first message with the id.
pub record Found (i : ℕ) (id : String) (ms : List Message) (index : ℕ) : Type 0 where
  pub place : ℕ
  pub at : index ≡ i + place
  pub inside : place < length ms
  pub before : contains id (ids (take place ms)) ≡ false
  pub message : Message
  pub there : get_elem? ms place ≡ some message
  pub named : message_id message ≡ id

Found-cons :
    (i : ℕ) (id : String) (m : Message) (ms : List Message) (index : ℕ)
    → (message_id m == id) ≡ false
    → Found (i + 1) id ms index
    → Found i id (m ∷ ms) index
Found-cons i id m ms index e f =
    let at_place = f.at in
    let inside_place = f.inside in
    record {
      place = suc f.place;
      at = omega arith;
      inside = omega arith;
      before = rw e f.before;
      message = f.message;
      there = f.there;
      named = f.named;
    }

index_from-Found :
    (i : ℕ) (id : String) (ms : List Message) (index : ℕ)
    → index_from i id ms ≡ some index
    → Found i id ms index
unfolding index_from
index_from-Found i id [] index h = absurd (ground arith)
index_from-Found i id (m ∷ ms) index h = elim (Bool-cases (message_id m == id)) [
  | inl e ↦ record {
    place = 0;
    at = ground arith;
    inside = omega arith;
    before = refl;
    message = m;
    there = refl;
    named = (eq_iff (message_id m) id).0 e;
  }
  | inr e ↦ Found-cons i id m ms index e (index_from-Found (i + 1) id ms index (ground arith))
]

-- What `rollback_plan_to` plans: the first message with the id is dropped with all after it.
pub record Plans (m : Message) (c : Conversation) (plan : RollbackPlan) : Type 0 where
  pub found : Found 0 (message_id m) c.messages plan.drop_from
  pub reverts : plan.revert_turns ≡ reversible_of c.turns (drop plan.drop_from c.messages)
  pub user_text : plan.user_text ≡ content m
  pub user : is_user m ≡ true
  pub fresh : is_summary m ≡ false

pub rollback_plan_to-Plans :
    (m : Message) (c : Conversation) (plan : RollbackPlan)
    → rollback_plan_to m c ≡ some plan
    → Plans m c plan
unfolding rollback_plan_to
rollback_plan_to-Plans m c plan h = elim (Option-cases (index_from 0 (message_id m) c.messages)) [
  | inl e ↦ absurd (ground arith)
  | inr (index, e) ↦
      let at_index : plan.drop_from ≡ index = ground arith in
      let planned_turns : plan.revert_turns
          ≡ reverse (reversible_of c.turns (reverse (drop index c.messages))) =
        ground arith in
      record {
        found = rw at_index (index_from-Found 0 (message_id m) c.messages index e);
        reverts =
            rw at_index (planned_turns ∙ reversible_of-reverse c.turns (drop index c.messages));
        user_text = ground arith;
        user = ground arith;
        fresh = ground arith;
      }
]

-- A rollback splits the reversible turns: it reverts those of the dropped messages, in their
-- order, and the others stay reversible.
pub rollback-checkpoints :
    (plan : RollbackPlan) (c : Conversation)
    → turn_checkpoints c
      ≡ turn_checkpoints (apply_rollback plan c)
        ++ reversible_of c.turns (drop plan.drop_from c.messages)
unfolding turn_checkpoints apply_rollback
rollback-checkpoints plan c =
    let kept = take plan.drop_from c.messages in
    rw
      (reversible_of-filter (λ k. contains k (ids kept)) c.turns kept
        (contains-ids (λ k. contains k (ids kept)) kept (λ x e. e)))
      (ap (reversible_of c.turns) (sym (take-append-drop plan.drop_from c.messages))
        ∙ reversible_of-append c.turns kept (drop plan.drop_from c.messages))

-- The messages before the first with the id.
unfoldable pub before_id : String → List Message → List Message
before_id id [] = []
before_id id (m ∷ ms) = if message_id m == id then [] else m ∷ before_id id ms

take-before_id :
    (id : String) (ms : List Message) (n : ℕ) (x : Message)
    → contains id (ids (take n ms)) ≡ false
    → get_elem? ms n ≡ some x
    → message_id x ≡ id
    → take n ms ≡ before_id id ms
unfolding before_id
take-before_id id [] n x b t e = absurd (ground arith)
take-before_id id (m ∷ ms) zero x b t e =
    let same : m ≡ x = ground arith in
    let hit : (message_id m == id) ≡ true = (eq_iff (message_id m) id).1 (ap message_id same ∙ e) in
    rw hit refl
take-before_id id (m ∷ ms) (suc n) x b t e =
    let miss : (message_id m == id) ≡ false = ground arith in
    let later : contains id (ids (take n ms)) ≡ false = ground arith in
    rw miss (ap (λ rest. m ∷ rest) (take-before_id id ms n x later t e))

-- Where there is a plan for undoing to a message, the history it leaves is exactly the messages
-- before the first one with the message's id; the message is in it no more, its checkpoint is gone,
-- and the plan reverts exactly the reversible turns that go: the checkpoints before are those that
-- stay followed by the reverted ones.
pub rollback_to_removes :
    (m : Message) (c : Conversation) (plan : RollbackPlan)
    → rollback_plan_to m c ≡ some plan
    → (contains (message_id m) (ids (apply_rollback plan c).messages) ≡ false)
      × (lookup (message_id m) (apply_rollback plan c).turns ≡ none)
      × ((apply_rollback plan c).messages ≡ before_id (message_id m) c.messages)
      × (turn_checkpoints c ≡ turn_checkpoints (apply_rollback plan c) ++ plan.revert_turns)
unfolding apply_rollback
rollback_to_removes m c plan h =
    let p = rollback_plan_to-Plans m c plan h in
    let at_place : plan.drop_from ≡ p.found.place = omega (arith, p.found.at) in
    let gone : contains (message_id m) (ids (take plan.drop_from c.messages)) ≡ false =
      rw at_place p.found.before in
    (
      gone,
      rw (
        lookup-filter_key (λ k. contains k (ids (take plan.drop_from c.messages))) (message_id m)
            c.turns,
        gone,
      ),
      rw at_place (
          take-before_id (message_id m) c.messages p.found.place p.found.message p.found.before
            p.found.there p.found.named),
      rw p.reverts (rollback-checkpoints plan c),
    )
