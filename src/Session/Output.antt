-- ===== src/Session/Output.antt =====
-- The live output of a tool call in src/xarness/session.py (`sink` of `_execute_call`).
use xarness.Prelude.{
  ℕ, zero, suc, ◌-◌, ◌≤◌, ◌<◌, ◌≡◌, refl, ap, List, [], ◌∷◌, ◌++◌, String, Text, codes, arith,
  append-nil, Bool-cases, inl, inr, ltb→lt, append_assoc, length, take, length-append, length-take,
  take_of_length-le, ltb, eqb, if◌then◌else◌,
}
use xarness.Session.{Event, tool_output_delta}

abbrev pub truncated_note : Text
truncated_note = codes "\n[live output truncated]\n"

-- What one call of `sink` emits with `remaining` characters left, and what is left then.
unfoldable pub sink : String → ℕ → Text → List Event × ℕ
sink call_id remaining t =
    if eqb remaining 0
    then ([], remaining)
    else let chunk = take remaining t in
      let left = remaining - length chunk in
      (
        tool_output_delta call_id chunk
            ∷ (if eqb left 0 then tool_output_delta call_id truncated_note ∷ [] else []),
        left,
      )

-- The calls of `sink` of one tool call.
unfoldable pub sink_all : String → ℕ → List Text → List Event × ℕ
unfolding sink
sink_all call_id remaining [] = ([], remaining)
sink_all call_id remaining (t ∷ ts) =
    let (events, left) = sink call_id remaining t in
    let (later, left') = sink_all call_id left ts in (events ++ later, left')

-- The text that the events show.
abbrev pub shown : List Event → Text
shown [] = []
shown (tool_output_delta id t ∷ es) = t ++ shown es
shown (_ ∷ es) = shown es

abbrev pub joined : List Text → Text
joined [] = []
joined (t ∷ ts) = t ++ joined ts

sink_all_done : (call_id : String) (ts : List Text) → sink_all call_id 0 ts ≡ ([], 0)
unfolding sink_all
sink_all_done call_id [] = refl
sink_all_done call_id (t ∷ ts) = rw (sink_all_done call_id ts)

sink-less :
    (call_id : String) (n : ℕ) (t : Text)
    → length t < n
    → sink call_id n t ≡ (tool_output_delta call_id t ∷ [], n - length t)
unfolding sink
sink-less call_id n t h =
    let whole : take n t ≡ t = take_of_length-le n t (omega arith) in rw whole (ground arith)

sink-more :
    (call_id : String) (n : ℕ) (t : Text)
    → 0 < n
    → n ≤ length t
    → sink call_id n t
      ≡ (tool_output_delta call_id (take n t) ∷ tool_output_delta call_id truncated_note ∷ [], 0)
unfolding sink
sink-more call_id n t p h =
    let full : n - length (take n t) ≡ 0 = omega (arith, length-take n t) in rw full (ground arith)

take-append_ge :
    (n : ℕ) (xs ys : Text) → length xs ≤ n → take n (xs ++ ys) ≡ xs ++ take (n - length xs) ys
take-append_ge n [] ys h = let e : n - 0 ≡ n = omega arith in rw e refl
take-append_ge zero (x ∷ xs) ys h = absurd (omega arith)
take-append_ge (suc n) (x ∷ xs) ys h =
    let e : suc n - length (x ∷ xs) ≡ n - length xs = omega arith in
    rw (take-append_ge n xs ys (omega arith), e) refl

take-append_le : (n : ℕ) (xs ys : Text) → n ≤ length xs → take n (xs ++ ys) ≡ take n xs
take-append_le zero xs ys h = refl
take-append_le (suc n) [] ys h = absurd (omega arith)
take-append_le (suc n) (x ∷ xs) ys h = rw (take-append_le n xs ys (omega arith))

-- What may be shown of a text under the limit.
abbrev pub limited : ℕ → Text → Text
limited n t = if ltb (length t) n then t else take n t ++ truncated_note

limited-less :
    (n : ℕ) (t rest : Text)
    → length t < n
    → limited n (t ++ rest) ≡ t ++ limited (n - length t) rest
limited-less n t rest h =
    rw (length-append t rest, take-append_ge n t rest (omega arith))
      (ground (arith, append_assoc t (take (n - length t) rest) truncated_note))

limited-more :
    (n : ℕ) (t rest : Text) → n ≤ length t → limited n (t ++ rest) ≡ take n t ++ truncated_note
limited-more n t rest h = rw (length-append t rest, take-append_le n t rest h) (ground arith)

-- The live output of a tool call, under a limit that is not zero, is all its output where that is
-- shorter than the limit; otherwise it is as much of it as the limit allows, and the note that it
-- was cut, which is there too where the output is exactly as long as the limit.
pub shown-sink_all :
    (call_id : String) (n : ℕ) (ts : List Text)
    → 0 < n
    → shown (sink_all call_id n ts).0 ≡ limited n (joined ts)
unfolding sink_all
shown-sink_all call_id n [] p = ground arith
shown-sink_all call_id n (t ∷ ts) p = elim (Bool-cases (ltb (length t) n)) [
  | inl b ↦
      let h : length t < n = ltb→lt (length t) n b in
      rw (sink-less call_id n t h, limited-less n t (joined ts) h)
        (ap (λ r. t ++ r) (shown-sink_all call_id (n - length t) ts (omega arith)))
  | inr b ↦
      let h : n ≤ length t = ground arith in
      rw (sink-more call_id n t p h, sink_all_done call_id ts, limited-more n t (joined ts) h)
        (ap (λ r. take n t ++ r) (append-nil truncated_note))
]
