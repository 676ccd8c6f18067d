-- ===== src/Sandbox/Capture/Marker.antt =====
-- The end of a command's output: `_read_until_marker` and what `SandboxSession.run` returns
-- (src/xarness/sandbox.py). The shell writes the marker, a space, `$?` and a line's end behind what
-- the command wrote; the marker may stand behind output that does not end its line.
use xarness.Prelude.{
  ℕ, ◌+◌, ◌-◌, ◌*◌, ◌≤◌, ◌≡◌, refl, ap, sym, ◌∙◌, Bool, true, false, ◌&&◌, some, List, [], ◌∷◌,
  ◌++◌, append-nil, append_assoc, Text, any, nonempty, is_some, eqb, leb, if◌then◌else◌, arith,
  length, Option-cases, inl, inr,
}
use mathlib.Core.Option
use xarness.Prelude.Decimal.{
  decimal, digits_value, digits_value-decimal, no_digit, decimal-digits, decimal-nonempty,
}
use xarness.Prelude.Strip.{is_space, strip-word}
use xarness.Sandbox.Capture.{
  Capture, empty_capture, keep, keep_all, join_lines, find, pos, negsuc, int, int_from, exit_status,
  read_until_marker, run, capture_head, capture_tail,
}
use xarness.Sandbox.Capture.Kept.{size, captured_whole, size-append}

int_from-digits :
    (n : ℕ) (t : Text) → any no_digit t ≡ false → int_from true n t ≡ some (digits_value n t)
unfolding int_from digits_value
int_from-digits n [] h = refl
int_from-digits n (c ∷ cs) h =
    let e : (leb 48 c && leb c 57) ≡ true = ground arith in
    rw e (int_from-digits (n * 10 + (c - 48)) cs (ground arith))

int-digits :
    (t : Text) → nonempty t ≡ true → any no_digit t ≡ false → int t ≡ some (pos (digits_value 0 t))
unfolding int int_from digits_value
int-digits [] h k = absurd (ground arith)
int-digits (c ∷ cs) h k =
    let e : (leb 48 c && leb c 57) ≡ true = ground arith in
    let a : eqb c 45 ≡ false = ground arith in
    let b : eqb c 43 ≡ false = ground arith in
    rw (a, b, e) (ap (Option.map pos) (int_from-digits (0 * 10 + (c - 48)) cs (ground arith)))

no_space : (t : Text) → any no_digit t ≡ false → any is_space t ≡ false
no_space [] h = refl
no_space (c ∷ cs) h = let e : is_space c ≡ false = ground arith in rw e (no_space cs (ground arith))

-- ` $?` and the line's end, as `echo` writes them
abbrev pub report : ℕ → Text
report n = 32 ∷ decimal n ++ 10 ∷ []

exit_status-report : (n : ℕ) → exit_status (report n) ≡ pos n
unfolding exit_status
exit_status-report n =
    rw
      (
        strip-word (decimal n) (decimal-nonempty n) (no_space (decimal n) (decimal-digits n)),
        decimal-nonempty n,
        int-digits (decimal n) (decimal-nonempty n) (decimal-digits n),
      )
      (ap pos (digits_value-decimal n))

-- The lines that a marker line leaves for the output.
abbrev pub before_lines : Text → List Text
before_lines before = if nonempty before then before ∷ [] else []

abbrev pub marked : Text → Text → Bool
marked marker line = is_some (find marker line)

read_until_marker-reads :
    (head_limit tail_limit : ℕ) (marker : Text) (outs : List Text) (text before after : Text)
    (later : List Text) (c : Capture)
    → any (marked marker) outs ≡ false
    → find marker text ≡ some (before, after)
    → read_until_marker head_limit tail_limit marker (outs ++ text ∷ later) c
      ≡ (exit_status after, keep_all head_limit tail_limit (outs ++ before_lines before) c)
unfolding read_until_marker keep_all
read_until_marker-reads hl tl marker [] text [] after later c h k = rw (read_until_marker, k) refl
read_until_marker-reads hl tl marker [] text (b ∷ before) after later c h k =
    rw (read_until_marker, k) refl
read_until_marker-reads hl tl marker (out ∷ outs) text before after later c h k =
    elim (Option-cases (find marker out)) [
      | inl e ↦
          rw (read_until_marker, e)
            (read_until_marker-reads hl tl marker outs text before after later (keep hl tl out c)
              (ground arith) k)
      | inr (p, e) ↦ absurd (ground arith)
    ]

-- Where the lines end without a marker the exit code is -1.
read_until_marker-ends :
    (head_limit tail_limit : ℕ) (marker : Text) (outs : List Text) (c : Capture)
    → any (marked marker) outs ≡ false
    → read_until_marker head_limit tail_limit marker outs c
      ≡ (negsuc 0, keep_all head_limit tail_limit outs c)
unfolding read_until_marker keep_all
read_until_marker-ends hl tl marker [] c h = refl
read_until_marker-ends hl tl marker (out ∷ outs) c h = elim (Option-cases (find marker out)) [
  | inl e ↦
      rw (read_until_marker, e)
        (read_until_marker-ends hl tl marker outs (keep hl tl out c) (ground arith))
  | inr (p, e) ↦ absurd (ground arith)
]

join-append : (xs ys : List Text) → join_lines (xs ++ ys) ≡ join_lines xs ++ join_lines ys
join-append [] ys = refl
join-append (x ∷ xs) ys =
    ap (λ t. x ++ t) (join-append xs ys) ∙ sym (append_assoc x (join_lines xs) (join_lines ys))

join-before : (before : Text) → join_lines (before_lines before) ≡ before
join-before [] = refl
join-before (c ∷ cs) = append-nil (c ∷ cs)

size-before : (before : Text) → size (before_lines before) ≡ length before
unfolding size
size-before [] = refl
size-before (c ∷ cs) = omega arith

-- A command whose marker line comes in time is reported with the exit code that the shell printed, and
-- with all of its output, also what does not end its line, where this fits the head. The marker stands
-- in no line before, and not earlier in its own line.
pub run-reports :
    (marker : Text) (outs : List Text) (before : Text) (n : ℕ) (later : List Text)
    → any (marked marker) outs ≡ false
    → find marker (before ++ (marker ++ report n)) ≡ some (before, report n)
    → size outs + length before ≤ capture_head
    → run marker (outs ++ (before ++ (marker ++ report n)) ∷ later) ≡ record {
      exit_code = pos n;
      stdout = join_lines outs ++ before;
      stderr = [];
      timed_out = false;
    }
unfolding run
run-reports marker outs before n later h k fits =
    let s : size (outs ++ before_lines before) ≤ capture_head =
      omega (arith, size-append outs (before_lines before), size-before before) in
    rw
      (
        read_until_marker-reads capture_head capture_tail marker outs
            (before ++ (marker ++ report n)) before (report n) later empty_capture h k,
        exit_status-report n,
        captured_whole capture_head capture_tail (outs ++ before_lines before) s,
        join-append outs (before_lines before),
        join-before before,
      )
      refl
