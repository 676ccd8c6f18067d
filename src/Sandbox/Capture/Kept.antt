-- ===== src/Sandbox/Capture/Kept.antt =====
-- What is kept of a command's output (`keep` and `captured` of src/xarness/sandbox.py), as a
-- function of all its lines.
use xarness.Prelude.{
  ℕ, ◌+◌, ◌≤◌, ◌<◌, ◌≡◌, refl, ap, ◌∙◌, true, false, List, [], ◌∷◌, ◌++◌, append_assoc, append-nil,
  Text, leb, ltb, if◌then◌else◌, arith, length, Bool-cases, inl, inr,
}
use xarness.Sandbox.Capture.{
  Capture, empty_capture, drop_old, keep_head, keep_tail, keep, keep_all, join_lines, captured,
  elided,
}

-- The characters of some lines.
unfoldable pub size : List Text → ℕ
size [] = 0
size (line ∷ lines) = length line + size lines

pub size-append : (xs ys : List Text) → size (xs ++ ys) ≡ size xs + size ys
unfolding size
size-append [] ys = omega arith
size-append (x ∷ xs) ys = omega (arith, size-append xs ys)

size-line : (xs : List Text) (x : Text) → size (xs ++ x ∷ []) ≡ size xs + length x
unfolding size
size-line xs x = omega (arith, size-append xs (x ∷ []))

-- The lines that go to the head, when it holds `n` characters, and those that do not.
unfoldable pub taken : ℕ → ℕ → List Text → List Text
taken limit n [] = []
taken limit n (line ∷ lines) =
    let more = taken limit (n + length line) lines in
    let skipped = taken limit n lines in
    if leb (n + length line) limit then line ∷ more else skipped

unfoldable pub left : ℕ → ℕ → List Text → List Text
left limit n [] = []
left limit n (line ∷ lines) =
    let more = left limit (n + length line) lines in
    let skipped = left limit n lines in if leb (n + length line) limit then more else line ∷ skipped

drop_old_lem :
    (limit n : ℕ) (tail : List Text) (dropped : ℕ)
    → drop_old limit n tail dropped
      ≡ (if ltb limit n then ([], dropped + size tail) else (tail, dropped))
unfolding drop_old size
drop_old_lem limit n [] dropped = ground arith
drop_old_lem limit n (line ∷ tail) dropped = elim (Bool-cases (ltb limit n)) [
  | inl e ↦
      let k : dropped + length line + size tail ≡ dropped + (length line + size tail) =
        omega arith in
      rw (drop_old_lem limit n tail (dropped + length line), e) (ap (λ m. ([], m)) k)
  | inr e ↦ rw e refl
]

-- The state after the lines `h` for the head and the lines `t` beyond it.
state : ℕ → List Text → List Text → Capture
unfolding size
state tail_limit h t = record {
  head = h;
  tail = (if ltb tail_limit (size t) then [] else t);
  head_size = size h;
  tail_size = size t;
  dropped = (if ltb tail_limit (size t) then size t else 0);
}

keep_head-state :
    (tail_limit : ℕ) (line : Text) (h t : List Text)
    → keep_head line (state tail_limit h t) ≡ state tail_limit (h ++ line ∷ []) t
unfolding state
keep_head-state tail_limit line h t =
    let k : size (h ++ line ∷ []) ≡ size h + length line = size-line h line in rw k refl

keep_tail-state :
    (tail_limit : ℕ) (line : Text) (h t : List Text)
    → keep_tail tail_limit line (state tail_limit h t) ≡ state tail_limit h (t ++ line ∷ [])
unfolding keep_tail state size
keep_tail-state tail_limit line h t =
    let k : size (t ++ line ∷ []) ≡ size t + length line = size-line t line in
    elim (Bool-cases (ltb tail_limit (size t))) [
      | inl e ↦
          let f : ltb tail_limit (size t + length line) ≡ true = ground arith in
          let z : size t + (length line + 0) ≡ size t + length line = omega arith in
          rw (e, k, drop_old_lem tail_limit (size t + length line) (line ∷ []) (size t), f, size, z)
            refl
      | inr e ↦ elim (Bool-cases (ltb tail_limit (size t + length line))) [
        | inl f ↦
            let z : 0 + (size t + length line) ≡ size t + length line = omega arith in
            rw (e, k, drop_old_lem tail_limit (size t + length line) (t ++ line ∷ []) 0, f, k, z)
              refl
        | inr f ↦
            rw (e, k, drop_old_lem tail_limit (size t + length line) (t ++ line ∷ []) 0, f) refl
      ]
    ]

keep-state :
    (head_limit tail_limit : ℕ) (line : Text) (h t : List Text)
    → keep head_limit tail_limit line (state tail_limit h t) ≡ (
        if leb (size h + length line) head_limit
        then state tail_limit (h ++ line ∷ []) t
        else state tail_limit h (t ++ line ∷ []))
unfolding keep state
keep-state head_limit tail_limit line h t =
    elim (Bool-cases (leb (size h + length line) head_limit)) [
      | inl e ↦ rw e (keep_head-state tail_limit line h t)
      | inr e ↦ rw e (keep_tail-state tail_limit line h t)
    ]

keep_all-state :
    (head_limit tail_limit : ℕ) (lines h t : List Text)
    → keep_all head_limit tail_limit lines (state tail_limit h t)
      ≡ state tail_limit
          (h ++ taken head_limit (size h) lines)
          (t ++ left head_limit (size h) lines)
unfolding keep_all taken left
keep_all-state head_limit tail_limit [] h t = rw (append-nil h, append-nil t) refl
keep_all-state head_limit tail_limit (line ∷ lines) h t =
    elim (Bool-cases (leb (size h + length line) head_limit)) [
      | inl e ↦
          rw (keep-state head_limit tail_limit line h t, e)
            (keep_all-state head_limit tail_limit lines (h ++ line ∷ []) t
              ∙ rw
                  (
                    size-line h line,
                    append_assoc h (line ∷ []) (taken head_limit (size h + length line) lines),
                  )
                  refl)
      | inr e ↦
          rw (keep-state head_limit tail_limit line h t, e)
            (keep_all-state head_limit tail_limit lines h (t ++ line ∷ [])
              ∙ rw (append_assoc t (line ∷ []) (left head_limit (size h) lines)) refl)
    ]

pub taken_all :
    (limit n : ℕ) (lines : List Text) → n + size lines ≤ limit → taken limit n lines ≡ lines
unfolding taken size
taken_all limit n [] h = refl
taken_all limit n (line ∷ lines) h = ground (arith, taken_all limit (n + length line) lines)

pub left_all : (limit n : ℕ) (lines : List Text) → n + size lines ≤ limit → left limit n lines ≡ []
unfolding left size
left_all limit n [] h = refl
left_all limit n (line ∷ lines) h = ground (arith, left_all limit (n + length line) lines)

size-split :
    (limit n : ℕ) (lines : List Text)
    → size (taken limit n lines) + size (left limit n lines) ≡ size lines
unfolding taken left size
size-split limit n [] = omega arith
size-split limit n (line ∷ lines) =
    ground (arith, size-split limit n lines, size-split limit (n + length line) lines)

size-taken : (limit n : ℕ) (lines : List Text) → n ≤ limit → n + size (taken limit n lines) ≤ limit
unfolding taken size
size-taken limit n [] h = omega arith
size-taken limit n (line ∷ lines) h =
    ground (arith, size-taken limit n lines, size-taken limit (n + length line) lines)

-- What is read of a command, of the lines that fit the head and the lines that do not: those beyond
-- the head are there if together they fit the tail, and otherwise none of them is.
unfoldable pub shown : ℕ → List Text → List Text → Text
shown tail_limit h t =
    join_lines h ++ (if ltb tail_limit (size t) then elided (size t) else join_lines t)

captured-state :
    (tail_limit : ℕ) (h t : List Text) → captured (state tail_limit h t) ≡ shown tail_limit h t
unfolding captured state shown
captured-state tail_limit h t = elim (Bool-cases (ltb tail_limit (size t))) [
  | inl e ↦
      let k : ltb 0 (size t) ≡ true = ground arith in rw (e, k, append-nil (elided (size t))) refl
  | inr e ↦ rw e refl
]

start : (tail_limit : ℕ) → empty_capture ≡ state tail_limit [] []
unfolding state size
start tail_limit = let e : ltb tail_limit 0 ≡ false = ground arith in rw e refl

-- What is kept of a command's output is the lines that fit the head, each in its turn, and behind them
-- all the others, if together they fit the tail, and otherwise only the note of how many characters they
-- have.
pub captured_lem :
    (head_limit tail_limit : ℕ) (lines : List Text)
    → captured (keep_all head_limit tail_limit lines empty_capture)
      ≡ shown tail_limit (taken head_limit 0 lines) (left head_limit 0 lines)
unfolding state
captured_lem head_limit tail_limit lines =
    rw (start tail_limit, keep_all-state head_limit tail_limit lines [] [])
      (captured-state tail_limit (taken head_limit 0 lines) (left head_limit 0 lines))

-- Output that fits the head is kept as it came.
pub captured_whole :
    (head_limit tail_limit : ℕ) (lines : List Text)
    → size lines ≤ head_limit
    → captured (keep_all head_limit tail_limit lines empty_capture) ≡ join_lines lines
unfolding shown size
captured_whole head_limit tail_limit lines h =
    let e : ltb tail_limit 0 ≡ false = ground arith in
    captured_lem head_limit tail_limit lines
    ∙ rw (taken_all head_limit 0 lines (omega arith), left_all head_limit 0 lines (omega arith), e)
        (append-nil (join_lines lines))

-- The head and the tail stay within their limits, and each character is in one of them or counted as
-- dropped.
keep_all-Fits :
    (head_limit tail_limit : ℕ) (lines : List Text)
    → (size (keep_all head_limit tail_limit lines empty_capture).head ≤ head_limit)
      × (size (keep_all head_limit tail_limit lines empty_capture).tail ≤ tail_limit)
      × (size (keep_all head_limit tail_limit lines empty_capture).head
            + size (keep_all head_limit tail_limit lines empty_capture).tail
            + (keep_all head_limit tail_limit lines empty_capture).dropped
          ≡ size lines)
unfolding state
keep_all-Fits head_limit tail_limit lines =
    rw (start tail_limit, keep_all-state head_limit tail_limit lines [] [])
      (ground (arith, size-taken head_limit 0 lines, size-split head_limit 0 lines))

-- Where the lines beyond the head do not fit the tail, nothing of them is kept.
captured-no_tail :
    (head_limit tail_limit : ℕ) (lines : List Text)
    → tail_limit < size (left head_limit 0 lines)
    → captured (keep_all head_limit tail_limit lines empty_capture)
      ≡ join_lines (taken head_limit 0 lines) ++ elided (size (left head_limit 0 lines))
unfolding shown
captured-no_tail head_limit tail_limit lines h =
    let e : ltb tail_limit (size (left head_limit 0 lines)) ≡ true = ground arith in
    captured_lem head_limit tail_limit lines ∙ rw e refl
