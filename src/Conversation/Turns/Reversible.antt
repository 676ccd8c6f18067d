-- ===== src/Conversation/Turns/Reversible.antt =====
-- The reversible turns of src/xarness/conversation.py, and `lock_turns`.
use mathlib.Core.List.{reverse, reverse-append, reverse-cons}
use xarness.Prelude.{
  ◌≡◌, refl, sym, Bool, true, false, Option, none, some, Option-cases, inl, inr, List, [], ◌∷◌,
  ◌++◌, String, Dict, filter, lookup, lookup-filter_key, eq_iff, eq_refl, arith, if◌then◌else◌,
}
use xarness.Conversation.Message.{Message, message_id}
use xarness.Conversation.Log.{Conversation, TurnCheckpoint}
use xarness.Conversation.Turns.{
  last_open, open_turn, is_reversible, reversible_of, turn_checkpoints, is_other, lock_with,
  lock_turns,
}

pub reversible_of-append :
    (turns : Dict TurnCheckpoint) (xs ys : List Message)
    → reversible_of turns (xs ++ ys) ≡ reversible_of turns xs ++ reversible_of turns ys
unfolding reversible_of
reversible_of-append turns [] ys = refl
reversible_of-append turns (m ∷ xs) ys = ground (arith, reversible_of-append turns xs ys)

reversible_of_one :
    (turns : Dict TurnCheckpoint) (m : Message)
    → reverse (reversible_of turns (m ∷ [])) ≡ reversible_of turns (m ∷ [])
unfolding reversible_of
reversible_of_one turns m = ground arith

pub reversible_of-reverse :
    (turns : Dict TurnCheckpoint) (ms : List Message)
    → reverse (reversible_of turns (reverse ms)) ≡ reversible_of turns ms
reversible_of-reverse turns [] = unfold reversible_of in refl
reversible_of-reverse turns (m ∷ ms) =
    rw
      (
        reverse-cons,
        reversible_of-append turns (reverse ms) (m ∷ []),
        reverse-append,
        reversible_of_one turns m,
        reversible_of-reverse turns ms,
      )
      (sym (reversible_of-append turns (m ∷ []) ms))

abbrev pub AllIds : (String → Bool) → List Message → Type 0
AllIds p [] = Unit
AllIds p (m ∷ ms) = (p (message_id m) ≡ true) × AllIds p ms

-- Pruning the turns of other messages takes nothing away.
pub reversible_of-filter :
    (p : String → Bool) (turns : Dict TurnCheckpoint) (ms : List Message)
    → AllIds p ms
    → reversible_of (filter (λ e. p e.0) turns) ms ≡ reversible_of turns ms
unfolding reversible_of
reversible_of-filter p turns [] h = refl
reversible_of-filter p turns (m ∷ ms) h =
    ground
      (arith, lookup-filter_key p (message_id m) turns, h.0, reversible_of-filter p turns ms h.1)

-- A dict has each key once.
abbrev pub KeysUnique : Dict TurnCheckpoint → Type 0
KeysUnique [] = Unit
KeysUnique ((k, t) ∷ d) = (lookup k d ≡ none) × KeysUnique d

last_open-lookup :
    (d : Dict TurnCheckpoint) (k : String) (t : TurnCheckpoint)
    → KeysUnique d
    → last_open d ≡ some (k, t)
    → lookup k d ≡ some t
unfolding last_open
last_open-lookup [] k t u h = cc
last_open-lookup ((j, s) ∷ d) k t u h = elim (Option-cases (last_open d)) [
  | inl e ↦ ground (arith, eq_iff j k)
  | inr (o, e) ↦ ground (arith, eq_iff j k, last_open-lookup d k t u.1)
]

locked : String → Option (String × TurnCheckpoint) → String → TurnCheckpoint → TurnCheckpoint
locked tree opened k t = record t {
  before_tree = some tree;
  after_tree = if is_other k opened then some tree else t.after_tree;
}

lookup-lock_with :
    (tree : String) (opened : Option (String × TurnCheckpoint)) (j : String)
    (d : Dict TurnCheckpoint)
    → lookup j (lock_with tree opened d)
      ≡ elim (lookup j d) [ none ↦ none | some t ↦ some (locked tree opened j t) ]
unfolding lock_with locked
lookup-lock_with tree opened j [] = refl
lookup-lock_with tree opened j ((k, t) ∷ d) =
    ground (arith, eq_iff k j, lookup-lock_with tree opened j d)

reversible_of-eq-nil :
    (turns : Dict TurnCheckpoint) (ms : List Message)
    → ((j : String) (t : TurnCheckpoint) → lookup j turns ≡ some t → is_reversible t ≡ false)
    → reversible_of turns ms ≡ []
unfolding reversible_of
reversible_of-eq-nil turns [] h = refl
reversible_of-eq-nil turns (m ∷ ms) h = elim (Option-cases (lookup (message_id m) turns)) [
  | inl e ↦ rw (e, reversible_of) (reversible_of-eq-nil turns ms h)
  | inr (t, e) ↦ rw (e, reversible_of, h (message_id m) t e) (reversible_of-eq-nil turns ms h)
]

locked_irreversible :
    (tree : String) (opened : Option (String × TurnCheckpoint)) (j : String) (t : TurnCheckpoint)
    → ((k : String) (o : TurnCheckpoint) → opened ≡ some (k, o) → k ≡ j → t.after_tree ≡ none)
    → is_reversible (locked tree opened j t) ≡ false
unfolding is_reversible locked
locked_irreversible tree none j t h = ground (arith, eq_refl tree)
locked_irreversible tree (some (k, o)) j t h = ground (arith, eq_refl tree, eq_iff k j, h k o)

lock_turns_lookup :
    (tree : String) (c : Conversation)
    → KeysUnique c.turns
    → ((k : String) (t : TurnCheckpoint) → open_turn c ≡ some (k, t) → t.after_tree ≡ none)
    → (j : String) (t : TurnCheckpoint) → lookup j (lock_with tree (open_turn c) c.turns) ≡ some t
    → is_reversible t ≡ false
lock_turns_lookup tree c u h j t e = elim (Option-cases (lookup j c.turns)) [
  | inl n ↦ absurd (ground (arith, lookup-lock_with tree (open_turn c) j c.turns))
  | inr (s, f) ↦
      let same : locked tree (open_turn c) j s ≡ t =
        ground (arith, lookup-lock_with tree (open_turn c) j c.turns) in
      rw (← same) (
        locked_irreversible tree (open_turn c) j s λ k o g p.
          let found : lookup k c.turns ≡ some o =
            unfold open_turn in last_open-lookup c.turns k o u g in
          ground (arith, h k o g))
]

-- After `lock_turns` no turn can be reversed, where no key of the turns is repeated and the open
-- turn, if there is one, has no after tree yet.
lock_turns-checkpoints :
    (tree : String) (c : Conversation)
    → KeysUnique c.turns
    → ((k : String) (t : TurnCheckpoint) → open_turn c ≡ some (k, t) → t.after_tree ≡ none)
    → turn_checkpoints (lock_turns tree c) ≡ []
unfolding lock_turns turn_checkpoints
lock_turns-checkpoints tree c u h =
    reversible_of-eq-nil (lock_with tree (open_turn c) c.turns) c.messages
      (lock_turns_lookup tree c u h)
