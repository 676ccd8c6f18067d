-- ===== src/Conversation/Indexed.antt =====
-- The derived index `_visible_from` of src/xarness/conversation.py under each mutator.
use xarness.Prelude.{
  ℕ, zero, suc, ◌+◌, ◌≤◌, ◌<◌, ◌≡◌, refl, List, [], ◌∷◌, ◌++◌, arith, length, length-append,
  if◌then◌else◌,
}
use xarness.Conversation.Message.{Message, is_summary}
use xarness.Conversation.Log.{Conversation, add, summary_at, summary_below, last_summary}

-- `visible_from` is the index of the last summary, or 0 without one.
abbrev pub IsIndexed : Conversation → Type 0
IsIndexed c = c.visible_from ≡ last_summary c.messages

pub summary_at-append :
    (ms rest : List Message) (i : ℕ) → i < length ms → summary_at (ms ++ rest) i ≡ summary_at ms i
summary_at-append [] rest i h = absurd (omega arith)
summary_at-append (m ∷ ms) rest zero h = refl
summary_at-append (m ∷ ms) rest (suc i) h = summary_at-append ms rest i (omega arith)

pub summary_below-append :
    (ms rest : List Message) (i : ℕ)
    → i ≤ length ms
    → summary_below (ms ++ rest) i ≡ summary_below ms i
unfolding summary_below
summary_below-append ms rest zero h = refl
summary_below-append ms rest (suc i) h =
    rw (summary_at-append ms rest i h, summary_below-append ms rest i (omega arith))

summary_at-length :
    (ms : List Message) (m : Message) → summary_at (ms ++ m ∷ []) (length ms) ≡ is_summary m
summary_at-length [] m = refl
summary_at-length (x ∷ ms) m = summary_at-length ms m

pub last_summary-append :
    (ms : List Message) (m : Message)
    → last_summary (ms ++ m ∷ []) ≡ (if is_summary m then length ms else last_summary ms)
unfolding last_summary summary_below
last_summary-append ms m = rw (length-append ms (m ∷ [])) (
    let e : length ms + 1 ≡ suc (length ms) = omega arith in
    rw (e, summary_at-length ms m, summary_below-append ms (m ∷ []) (length ms) (omega arith)))

pub last_summary-le : (ms : List Message) (i : ℕ) → summary_below ms i ≤ i
unfolding summary_below
last_summary-le ms zero = omega arith
last_summary-le ms (suc i) = ground (arith, last_summary-le ms i)

pub add-IsIndexed : (m : Message) (c : Conversation) → IsIndexed c → IsIndexed (add m c)
unfolding add
add-IsIndexed m c h = rw (last_summary-append c.messages m) (ground arith)
