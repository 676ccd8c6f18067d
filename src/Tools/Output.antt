-- ===== src/Tools/Output.antt =====
-- The cap on the text of a tool's result: `_truncate_output` of src/xarness/tools.py.
use xarness.Prelude.{
  ℕ, ◌-◌, ◌*◌, ◌/◌, ◌<◌, ◌≡◌, ◌++◌, Text, codes, arith, length, take, drop, min, leb, leb→le,
  length-append, length-take, length-drop, if◌then◌else◌, Bool-cases, inl, inr,
}
use xarness.Prelude.Decimal.{decimal}

unfoldable pub marker : ℕ → ℕ → Text
marker elided limit =
    codes "\n[... "
    ++ (decimal elided
        ++ (codes " chars elided (limit "
            ++ (decimal limit ++ codes "); narrow the command or read a range ...]\n")))

-- The head and the tail of a text around a marker, `limit` characters in all.
unfoldable pub splice : ℕ → Text → Text → Text
splice limit m t =
    let keep = limit - length m in
    let head = keep * 2 / 3 in take head t ++ (m ++ drop (length t - (keep - head)) t)

-- A text that is too long, cut with a marker that may not fit itself.
unfoldable pub cut : ℕ → Text → Text → Text
unfolding splice
cut limit m t = if leb limit (length m) then take limit m else splice limit m t

-- `_truncate_output`
unfoldable pub truncate_output : Text → ℕ → Text
unfolding marker cut
truncate_output t limit =
    if leb (length t) limit then t else cut limit (marker (length t - limit) limit) t

splice-length :
    (limit : ℕ) (m t : Text)
    → length m < limit
    → limit < length t
    → length (splice limit m t) ≡ limit
unfolding splice
splice-length limit m t h k =
    let keep = limit - length m in
    let head = keep * 2 / 3 in
    let n = length t - (keep - head) in
    omega (
      arith,
      length-append (take head t) (m ++ drop n t),
      length-append m (drop n t),
      length-take head t,
      length-drop n t,
    )

cut-length : (limit : ℕ) (m t : Text) → limit < length t → length (cut limit m t) ≡ limit
unfolding cut
cut-length limit m t h = elim (Bool-cases (leb limit (length m))) [
  | inl e ↦ rw e (omega (arith, length-take limit m, leb→le limit (length m) e))
  | inr e ↦ let k : length m < limit = ground arith in rw e (splice-length limit m t k h)
]

-- A result's text is cut to the limit exactly, the marker for the part left out included: a longer
-- text comes out with as many characters as the limit says.
pub truncate_output-length :
    (t : Text) (limit : ℕ) → length (truncate_output t limit) ≡ min (length t) limit
unfolding truncate_output
truncate_output-length t limit = elim (Bool-cases (leb (length t) limit)) [
  | inl e ↦ rw e (omega (arith, leb→le (length t) limit e))
  | inr e ↦
      let k : limit < length t = ground arith in
      rw e (omega (arith, cut-length limit (marker (length t - limit) limit) t k))
]
