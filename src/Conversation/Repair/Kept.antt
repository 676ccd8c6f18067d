-- ===== src/Conversation/Repair/Kept.antt =====
-- What `repair_orphaned_tool_calls` of src/xarness/conversation.py leaves in place.
use mathlib.Core.List.{reverse_aux, Sublistᴰ}
use xarness.Prelude.{
  ℕ, suc, ◌+◌, ◌≤◌, ◌≡◌, refl, Option, none, some, List, [], ◌∷◌, ◌++◌, String, nonempty, min, take,
  arith, length, if◌then◌else◌,
}
use xarness.Conversation.Message.{Message, ToolCall}
use xarness.Conversation.Repair.{Loop, missing_calls, interruptions, repair_at, repair_loop}

-- Up to the lowest index of an insertion nothing moved; `base` is the index of the first message.
abbrev pub AtLowest : ℕ → List Message → List Message → Option ℕ → Type 0
AtLowest base orig ms none = ms ≡ orig
AtLowest base orig ms (some l) =
    (j : ℕ) × (l ≡ base + j) × (j ≤ length orig) × (j ≤ length ms) × (take j ms ≡ take j orig)

pub record Extends (base : ℕ) (orig : List Message) (s : Loop) : Type 0 where
  pub kept : Sublistᴰ orig s.after
  pub unmoved : AtLowest base orig s.after s.lowest

module _ (fresh : ℕ → String) (now : Option String) where
  Sublistᴰ-interruptions :
      (n : ℕ) (cs : List ToolCall) (orig ms : List Message)
      → Sublistᴰ orig ms
      → Sublistᴰ orig (interruptions fresh now n cs ++ ms)
  unfolding interruptions
  Sublistᴰ-interruptions n [] orig ms h = h
  Sublistᴰ-interruptions n (c ∷ cs) orig ms h =
      Sublistᴰ.cons (Sublistᴰ-interruptions (n + 1) cs orig ms h)

  unmoved_step :
      (m : Message) (orig ms : List Message) (n base : ℕ) (new : List ToolCall) (l : Option ℕ)
      → AtLowest (suc base) orig ms l
      → AtLowest base
          (m ∷ orig)
          (m ∷ (interruptions fresh now n new ++ ms))
          (if nonempty new then some (elim l [ none ↦ base | some k ↦ min k base ]) else l)
  unfolding interruptions
  unmoved_step m orig ms n base [] none h = rw h
  unmoved_step m orig ms n base [] (some l) (j, e, p, q, r) =
      (suc j, omega arith, omega arith, omega arith, rw r)
  unmoved_step m orig ms n base (c ∷ cs) none h = (0, omega arith, omega arith, omega arith, refl)
  unmoved_step m orig ms n base (c ∷ cs) (some l) (j, e, p, q, r) =
      (0, omega arith, omega arith, omega arith, refl)

  repair_at-Extends :
      (m : Message) (base : ℕ) (orig : List Message) (s : Loop)
      → Extends (suc base) orig s
      → Extends base (m ∷ orig) (repair_at fresh now m base s)
  unfolding repair_at
  repair_at-Extends m base orig s h = record {
    kept =
        Sublistᴰ.cons-cons refl
          (Sublistᴰ-interruptions s.drawn (missing_calls m s.answered) orig s.after h.kept);
    unmoved =
        unmoved_step m orig s.after s.drawn base (missing_calls m s.answered) s.lowest h.unmoved;
  }

  pub repair_loop-Extends :
      (before orig : List Message) (s : Loop)
      → Extends (length before) orig s
      → Extends 0 (reverse_aux before orig) (repair_loop fresh now before s)
  unfolding repair_loop
  repair_loop-Extends [] orig s h = h
  repair_loop-Extends (m ∷ before) orig s h =
      repair_loop-Extends before (m ∷ orig) (repair_at fresh now m (length before) s)
        (repair_at-Extends m (length before) orig s h)
