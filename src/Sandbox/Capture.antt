-- ===== src/Sandbox/Capture.antt =====
-- What `SandboxSession.run` of src/xarness/sandbox.py keeps of a command's output, and how it finds
-- the end of the command: `keep`, `captured` and `_read_until_marker`. A line is what `readline`
-- returns, decoded. The two limits are arguments of `keep`; the code calls it with `_CAPTURE_HEAD`
-- and `_CAPTURE_TAIL`.
pub mod Kept
pub mod Marker
use xarness.Prelude.{
  ℕ, zero, suc, ◌+◌, ◌-◌, ◌*◌, Bool, true, false, not, ◌&&◌, ◌||◌, Option, none, some, List, [],
  ◌∷◌, ◌++◌, Text, codes, nonempty, eqb, leb, ltb, if◌then◌else◌, length,
}
use mathlib.Core.Option
use xarness.Prelude.Decimal.{decimal}
use xarness.Prelude.Strip.{strip, drop_prefix}

-- `_CAPTURE_HEAD` and `_CAPTURE_TAIL`
abbrev pub capture_head : ℕ
capture_head = 1048576

abbrev pub capture_tail : ℕ
capture_tail = 1048576

-- `_ELIDED.format(chars=dropped)`
unfoldable pub elided : ℕ → Text
elided chars = codes "\n[... " ++ (decimal chars ++ codes " chars of output elided ...]\n")

-- The local state of `run`; the text of the head is in the order of arrival, as that of the tail.
pub record Capture : Type 0 where
  pub head : List Text
  pub tail : List Text
  pub head_size : ℕ
  pub tail_size : ℕ
  pub dropped : ℕ

abbrev pub empty_capture : Capture
empty_capture = record { head = []; tail = []; head_size = 0; tail_size = 0; dropped = 0 }

-- `while tail and tail_size > _CAPTURE_TAIL: dropped += len(tail.popleft())`: the loop does not
-- change `tail_size`.
pub drop_old : ℕ → ℕ → List Text → ℕ → List Text × ℕ
drop_old limit tail_size [] dropped = ([], dropped)
drop_old limit tail_size (line ∷ tail) dropped =
    let rest = drop_old limit tail_size tail (dropped + length line) in
    if ltb limit tail_size then rest else (line ∷ tail, dropped)

-- A line that goes to the head, and one that goes to the tail.
abbrev pub keep_head : Text → Capture → Capture
keep_head text c = record c { head = c.head ++ text ∷ []; head_size = c.head_size + length text }

unfoldable pub keep_tail : ℕ → Text → Capture → Capture
unfolding drop_old
keep_tail tail_limit text c =
    let size = c.tail_size + length text in
    let left = drop_old tail_limit size (c.tail ++ text ∷ []) c.dropped in
    record c { tail = left.0; tail_size = size; dropped = left.1 }

-- `keep`, less the call of `on_output`, which sees every line
unfoldable pub keep : ℕ → ℕ → Text → Capture → Capture
unfolding keep_tail
keep head_limit tail_limit text c =
    if leb (c.head_size + length text) head_limit
    then keep_head text c
    else keep_tail tail_limit text c

unfoldable pub keep_all : ℕ → ℕ → List Text → Capture → Capture
unfolding keep
keep_all head_limit tail_limit [] c = c
keep_all head_limit tail_limit (line ∷ lines) c =
    keep_all head_limit tail_limit lines (keep head_limit tail_limit line c)

-- `"".join(lines)`
abbrev pub join_lines : List Text → Text
join_lines [] = []
join_lines (line ∷ lines) = line ++ join_lines lines

-- `captured`
unfoldable pub captured : Capture → Text
unfolding elided
captured c =
    join_lines c.head ++ ((if ltb 0 c.dropped then elided c.dropped else []) ++ join_lines c.tail)

-- `text.find(marker)`: what stands before the first occurrence, and what behind it.
unfoldable pub find : Text → Text → Option (Text × Text)
find marker [] = if nonempty marker then none else some ([], [])
find marker (c ∷ cs) = elim (drop_prefix marker (c ∷ cs)) [
  | some after ↦ some ([], after)
  | none ↦ elim (find marker cs) [ none ↦ none | some (before, after) ↦ some (c ∷ before, after) ]
]

-- Python's integers, as far as an exit code needs them.
pub data ℤ : Type 0 where
  pos negsuc : ℕ → ℤ

abbrev pub is_decimal_digit : ℕ → Bool
is_decimal_digit c = leb 48 c && leb c 57

-- The digits of `int`, those read so far in `n`. A single `_` may stand between two digits, so `ends`
-- says whether the text may end here.
pub int_from : Bool → ℕ → Text → Option ℕ
int_from ends n [] = if ends then some n else none
int_from ends n (c ∷ cs) =
    let digit = int_from true (n * 10 + (c - 48)) cs in
    let gap = int_from false n cs in
    if is_decimal_digit c then digit else if ends && eqb c 95 then gap else none

abbrev pub negate : ℕ → ℤ
negate zero = pos 0
negate (suc n) = negsuc n

-- `int(text)` of a text that is stripped, in ASCII; none is a `ValueError`.
unfoldable pub int : Text → Option ℤ
unfolding int_from
int [] = none
int (c ∷ cs) =
    if eqb c 45
    then Option.map negate (int_from false 0 cs)
    else if eqb c 43
    then Option.map pos (int_from false 0 cs)
    else Option.map pos (int_from false 0 (c ∷ cs))

abbrev or_minus_one : Option ℤ → ℤ
or_minus_one none = negsuc 0
or_minus_one (some n) = n

-- `int(status or "-1")` of what stands behind the marker, stripped; -1 where that is no number
unfoldable pub exit_status : Text → ℤ
unfolding int
exit_status after =
    let status = strip after in if nonempty status then or_minus_one (int status) else negsuc 0

-- `_read_until_marker` on the lines that come; an end of the lines is the end of the output.
unfoldable pub read_until_marker : ℕ → ℕ → Text → List Text → Capture → ℤ × Capture
unfolding find keep exit_status
read_until_marker head_limit tail_limit marker [] c = (negsuc 0, c)
read_until_marker head_limit tail_limit marker (text ∷ lines) c =
    let rest =
      read_until_marker head_limit tail_limit marker lines (keep head_limit tail_limit text c) in
    elim (find marker text) [
      | some (before, after) ↦
          (exit_status after, if nonempty before then keep head_limit tail_limit before c else c)
      | none ↦ rest
    ]

-- What `run` returns of a command whose marker line, or the end of the shell, comes in time.
pub record SandboxResult : Type 0 where
  pub exit_code : ℤ
  pub stdout : Text
  pub stderr : Text
  pub timed_out : Bool

unfoldable pub run : Text → List Text → SandboxResult
unfolding read_until_marker captured
run marker lines =
    let read = read_until_marker capture_head capture_tail marker lines empty_capture in
    record { exit_code = read.0; stdout = captured read.1; stderr = []; timed_out = false }

-- What it returns when the time is up before the marker is there; `lines` are those read so far.
unfoldable pub timed_out : List Text → SandboxResult
unfolding keep_all captured
timed_out lines = record {
  exit_code = negsuc 0;
  stdout = captured (keep_all capture_head capture_tail lines empty_capture);
  stderr = [];
  timed_out = true;
}
