-- ===== src/Client/Events.antt =====
-- Predicates on the events of a round of src/xarness/client.py.
use xarness.Prelude.{
  ◌≡◌, refl, Bool, true, false, not, List, [], ◌∷◌, ◌++◌, String, nonempty, arith, any, any-append,
  Bool-cases, inl, inr, if◌then◌else◌,
}
use xarness.Protocol.{
  StreamEvent, tool_call_started, tool_call_arguments_done, round_complete, stream_error,
}
use xarness.Client.{Accumulator}

abbrev pub is_terminal : StreamEvent → Bool
is_terminal (round_complete u b) = true
is_terminal (stream_error m) = true
is_terminal _ = false

-- The first terminal event is there, and is the last event.
abbrev pub ends_once : List StreamEvent → Bool
ends_once [] = false
ends_once (e ∷ es) = if is_terminal e then not (nonempty es) else ends_once es

-- The ids of the calls announced, and of those finished, in order.
abbrev pub starts : List StreamEvent → List String
starts [] = []
starts (tool_call_started id name ∷ es) = id ∷ starts es
starts (_ ∷ es) = starts es

abbrev pub dones : List StreamEvent → List String
dones [] = []
dones (tool_call_arguments_done id name args ∷ es) = id ∷ dones es
dones (_ ∷ es) = dones es

abbrev pub completes : List StreamEvent → Bool
completes [] = false
completes (round_complete u b ∷ es) = true
completes (_ ∷ es) = completes es

-- The entries' ids, in the order of their first sight.
abbrev pub entry_ids : Accumulator → List String
entry_ids [] = []
entry_ids ((i, e) ∷ acc) = e.call_id ∷ entry_ids acc

-- Events that neither end the round nor finish a call; they announce the calls `ids`.
pub record IsOpen (es : List StreamEvent) (ids : List String) : Type 0 where
  pub unended : any is_terminal es ≡ false
  pub announced : starts es ≡ ids
  pub unfinished : dones es ≡ []

pub starts-append : (xs ys : List StreamEvent) → starts (xs ++ ys) ≡ starts xs ++ starts ys
starts-append [] ys = refl
starts-append (tool_call_started i n ∷ xs) ys = rw (starts-append xs ys)
starts-append (_ ∷ xs) ys = starts-append xs ys

pub dones-append : (xs ys : List StreamEvent) → dones (xs ++ ys) ≡ dones xs ++ dones ys
dones-append [] ys = refl
dones-append (tool_call_arguments_done i n a ∷ xs) ys = rw (dones-append xs ys)
dones-append (_ ∷ xs) ys = dones-append xs ys

pub IsOpen-nil : IsOpen [] []
IsOpen-nil = record { unended = refl; announced = refl; unfinished = refl }

pub IsOpen-append :
    (xs ys : List StreamEvent) (is js : List String)
    → IsOpen xs is
    → IsOpen ys js
    → IsOpen (xs ++ ys) (is ++ js)
IsOpen-append xs ys is js h k = record {
  unended = rw (any-append is_terminal xs ys, h.unended) k.unended;
  announced = rw (starts-append xs ys, h.announced, k.announced);
  unfinished = rw (dones-append xs ys, h.unfinished) k.unfinished;
}

pub ends_once-append :
    (xs ys : List StreamEvent) → any is_terminal xs ≡ false → ends_once (xs ++ ys) ≡ ends_once ys
ends_once-append [] ys h = refl
ends_once-append (x ∷ xs) ys h = elim (Bool-cases (is_terminal x)) [
  | inl e ↦ absurd (ground arith)
  | inr e ↦ rw e (ends_once-append xs ys (ground arith))
]

pub completes-append :
    (xs ys : List StreamEvent) → any is_terminal xs ≡ false → completes (xs ++ ys) ≡ completes ys
completes-append [] ys h = refl
completes-append (round_complete u b ∷ xs) ys h = absurd (ground arith)
completes-append (x ∷ xs) ys h = completes-append xs ys (ground arith)
