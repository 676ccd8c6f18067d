-- ===== src/Conversation/Turns.antt =====
-- The turn checkpoints of `class Conversation` in src/xarness/conversation.py. `turns` keeps the
-- order of insertion. A checkpoint object is shared by reference in the source; here its key in
-- `turns`, the id of the turn's opening message, stands for the reference.
pub mod Reversible
use mathlib.Core.List.{reverse}
use xarness.Prelude.{
  ℕ, ◌≡◌, Bool, true, false, not, ◌&&◌, ◌||◌, Option, none, some, List, [], ◌∷◌, ◌++◌, String, Dict,
  insert, lookup, is_some, ◌==◌, arith, if◌then◌else◌,
}
use xarness.Conversation.Message.{Message, UserMessage, message_id}
use xarness.Conversation.Log.{Conversation, TurnCheckpoint}

-- `bool(tree)`: a tree that is there and not the empty text.
abbrev pub truthy : Option String → Bool
truthy none = false
truthy (some t) = not (t == "")

-- The last entry that is not closed: the scan is from the end.
unfoldable pub last_open : Dict TurnCheckpoint → Option (String × TurnCheckpoint)
last_open [] = none
last_open ((k, t) ∷ d) = elim (last_open d) [
  | some e ↦ some e
  | none ↦ if t.closed then none else some (k, t)
]

unfoldable pub open_turn : Conversation → Option (String × TurnCheckpoint)
unfolding last_open
open_turn c = last_open c.turns

-- Whether `close_crashed_turns` gives the turn its before tree as a placeholder.
abbrev pub wants_placeholder : TurnCheckpoint → Bool
wants_placeholder t = is_some t.before_tree && not (is_some t.after_tree)

abbrev pub close_crashed : TurnCheckpoint → TurnCheckpoint
close_crashed t = if t.closed then t else record {
  before_tree = t.before_tree;
  after_tree = if wants_placeholder t then t.before_tree else t.after_tree;
  closed = true;
}

unfoldable pub close_all : Dict TurnCheckpoint → Dict TurnCheckpoint
close_all [] = []
close_all ((k, t) ∷ d) = (k, close_crashed t) ∷ close_all d

unfoldable pub repaired_keys : Dict TurnCheckpoint → List String
repaired_keys [] = []
repaired_keys ((k, t) ∷ d) =
    let rest = repaired_keys d in if not t.closed && wants_placeholder t then k ∷ rest else rest

-- The conversation with every turn closed, and the turns that got a placeholder.
unfoldable pub close_crashed_turns : Conversation → Conversation × List String
unfolding close_all repaired_keys
close_crashed_turns c = (record c { turns = close_all c.turns }, repaired_keys c.turns)

unfoldable pub begin_turn : UserMessage → Option String → Conversation → Conversation
begin_turn message before_tree c = record c {
  turns =
      insert message.id (record { before_tree = before_tree; after_tree = none; closed = false })
        c.turns;
}

-- A turn whose edits can be reversed: two trees, which differ.
abbrev differ : Option String → Option String → Bool
differ none none = false
differ none (some b) = true
differ (some a) none = true
differ (some a) (some b) = not (a == b)

unfoldable pub is_reversible : TurnCheckpoint → Bool
is_reversible t = truthy t.before_tree && truthy t.after_tree && differ t.before_tree t.after_tree

-- The reversible turns of the messages, in their order.
unfoldable pub reversible_of : Dict TurnCheckpoint → List Message → List TurnCheckpoint
unfolding is_reversible
reversible_of turns [] = []
reversible_of turns (m ∷ ms) =
    let rest = reversible_of turns ms in
    elim (lookup (message_id m) turns) [
      | none ↦ rest
      | some t ↦ if is_reversible t then t ∷ rest else rest
    ]

unfoldable pub turn_checkpoints : Conversation → List TurnCheckpoint
unfolding reversible_of
turn_checkpoints c = reversible_of c.turns c.messages

unfoldable pub trees_of : Dict TurnCheckpoint → List Message → List String
trees_of turns [] = []
trees_of turns (m ∷ ms) =
    let rest = trees_of turns ms in
    elim (lookup (message_id m) turns) [
      | none ↦ rest
      | some t ↦ elim t.after_tree [ none ↦ rest | some a ↦ if a == "" then rest else a ∷ rest ]
    ]

-- Every after tree that the conversation recorded.
unfoldable pub known_trees : Conversation → List String
unfolding trees_of
known_trees c = trees_of c.turns c.messages

-- `turn is not open_turn`, by the key.
abbrev pub is_other : String → Option (String × TurnCheckpoint) → Bool
is_other k none = true
is_other k (some (j, t)) = not (j == k)

unfoldable pub lock_with :
    String → Option (String × TurnCheckpoint) → Dict TurnCheckpoint → Dict TurnCheckpoint
lock_with tree opened [] = []
lock_with tree opened ((k, t) ∷ d) =
    (
      k,
      record t {
        before_tree = some tree;
        after_tree = if is_other k opened then some tree else t.after_tree;
      },
    )
    ∷ lock_with tree opened d

unfoldable pub lock_turns : String → Conversation → Conversation
unfolding open_turn lock_with
lock_turns tree c = record c { turns = lock_with tree (open_turn c) c.turns }

-- An assignment to the fields of the checkpoint at a key.
abbrev pub update_at :
    String → (TurnCheckpoint → TurnCheckpoint) → Dict TurnCheckpoint → Dict TurnCheckpoint
update_at k f [] = []
update_at k f ((j, t) ∷ d) = if j == k then (j, f t) ∷ d else (j, t) ∷ update_at k f d

-- The after tree at the end of a turn. The snapshot is `none` without change tracking, and
-- `some none` where git failed.
abbrev pub end_tree : Option (Option String) → TurnCheckpoint → Option String
end_tree none t = t.after_tree
end_tree (some tree) t = if truthy t.before_tree then tree else t.after_tree

-- `Session._finish_turn`
unfoldable pub finish_turn : Option (Option String) → Conversation → Conversation
unfolding open_turn
finish_turn snapshot c = elim (open_turn c) [
  | none ↦ c
  | some (k, opened) ↦ record c {
    turns = update_at k (λ t. record t { after_tree = end_tree snapshot t; closed = true }) c.turns;
  }
]
