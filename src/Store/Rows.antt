-- ===== src/Store/Rows.antt =====
-- The message table of src/xarness/session_store.py under the writes.
use xarness.Prelude.{
  ℕ, zero, suc, ◌+◌, ◌≤◌, ◌≡◌, refl, ◌∙◌, List, [], ◌∷◌, ◌++◌, arith, length, take, append-nil,
  append_assoc, length-append,
}
use xarness.Conversation.Message.{Message}
use xarness.Store.{Rows, delete_from, insert_or_replace, insert_all, select_messages}

-- The rows of the messages, numbered from `i` without a gap.
unfoldable pub number : ℕ → List Message → Rows
number i [] = []
number i (m ∷ ms) = (i, m) ∷ number (suc i) ms

pub select_messages-number : (i : ℕ) (ms : List Message) → select_messages (number i ms) ≡ ms
unfolding select_messages number
select_messages-number i [] = refl
select_messages-number i (m ∷ ms) = rw (select_messages-number (suc i) ms)

delete_from-below : (i n : ℕ) (ms : List Message) → n ≤ i → delete_from n (number i ms) ≡ []
unfolding delete_from number
delete_from-below i n [] h = refl
delete_from-below i n (m ∷ ms) h = ground (arith, delete_from-below (suc i) n ms)

pub delete_from-number :
    (i n : ℕ) (ms : List Message) → delete_from (i + n) (number i ms) ≡ number i (take n ms)
unfolding delete_from number
delete_from-number i zero ms =
    let e : i + 0 ≡ i = omega arith in rw e (delete_from-below i i ms (omega arith))
delete_from-number i (suc n) [] = refl
delete_from-number i (suc n) (m ∷ ms) =
    let e : i + suc n ≡ suc i + n = omega arith in
    ground (arith, delete_from-number (suc i) n ms, e)

insert_or_replace-number :
    (i : ℕ) (ms : List Message) (m : Message)
    → insert_or_replace (i + length ms) m (number i ms) ≡ number i (ms ++ m ∷ [])
unfolding insert_or_replace number
insert_or_replace-number i [] m = let e : i + 0 ≡ i = omega arith in rw e
insert_or_replace-number i (x ∷ ms) m =
    let e : i + suc (length ms) ≡ suc i + length ms = omega arith in
    ground (arith, insert_or_replace-number (suc i) ms m, e)

pub insert_all-number :
    (k : ℕ) (tail ms : List Message)
    → k ≡ length ms
    → insert_all k tail (number 0 ms) ≡ number 0 (ms ++ tail)
unfolding insert_all
insert_all-number k [] ms h = rw append-nil
insert_all-number k (m ∷ tail) ms h =
    let e : k ≡ 0 + length ms = omega arith in
    let done : insert_or_replace k m (number 0 ms) ≡ number 0 (ms ++ m ∷ []) =
      rw e (insert_or_replace-number 0 ms m) in
    rw done (
      insert_all-number (k + 1) tail (ms ++ m ∷ []) (omega (arith, length-append ms (m ∷ [])))
      ∙ rw append_assoc)
