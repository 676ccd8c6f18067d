-- ===== src/Tools/Window.antt =====
-- The line window of a read: `_line_window`, and what `read_file` of src/xarness/tools.py makes of
-- the output of its command. Lines are numbered from 1.
pub mod Fits
use xarness.Prelude.{
  ℕ, zero, suc, ◌+◌, ◌-◌, ◌≤◌, Bool, true, false, not, ◌&&◌, ◌||◌, Option, none, some, List, [],
  ◌∷◌, ◌++◌, Text, codes, nonempty, length, take, ltb, leb, eqb, if◌then◌else◌, map,
}
use xarness.Prelude.Decimal.{decimal}

abbrev pub concat : List Text → Text
concat [] = []
concat (l ∷ ls) = l ++ concat ls

abbrev pub newline : ℕ
newline = 10

-- `t.count("\n")`
unfoldable pub newlines : Text → ℕ
newlines [] = 0
newlines (c ∷ cs) = let rest = newlines cs in if eqb c newline then suc rest else rest

-- `t[:t.rfind("\n") + 1]`: through the last newline.
unfoldable pub through_newline : Text → Text
unfolding newlines
through_newline [] = []
through_newline (c ∷ cs) =
    let rest = through_newline cs in if eqb c newline || ltb 0 (newlines cs) then c ∷ rest else []

module _ (lines : List Text) (start stop total : ℕ) where
  -- `render`: the first lines, and a footer that says where to go on.
  unfoldable pub render : ℕ → Text
  render kept =
      let last = start + kept - 1 in
      let note =
        if leb stop last
        then []
        else codes "; output limit reached — continue from line " ++ decimal (last + 1) in
      if eqb kept 0 || leb total last
      then concat (take kept lines)
      else concat (take kept lines)
        ++ (codes "\n[showing lines "
            ++ (decimal start
                ++ (codes "-"
                    ++ (decimal last ++ (codes " of " ++ (decimal total ++ (note ++ codes "]")))))))

  -- `while kept > 1 and len(render(kept)) > limit: kept -= 1`
  unfoldable pub shrink : ℕ → ℕ → ℕ
  unfolding render
  shrink limit zero = zero
  shrink limit (suc kept) =
      let less = shrink limit kept in
      if ltb 0 kept && ltb limit (length (render (suc kept))) then less else suc kept

  -- The lines that are kept where all of them are too long.
  unfoldable pub kept_lines : ℕ → ℕ
  unfolding shrink newlines through_newline
  kept_lines limit =
      let kept = newlines (through_newline (take limit (concat lines))) in
      if eqb kept 0 then 1 else shrink limit kept

  -- `_line_window`
  unfoldable pub line_window : Option ℕ → Text
  unfolding kept_lines
  line_window none = render (length lines)
  line_window (some limit) =
      if leb (length (render (length lines))) limit
      then render (length lines)
      else render (kept_lines limit)

-- `str.splitlines` on `\n`, `\r\n` and the other characters at which Python ends a line, with the
-- ends kept; `seen` is the line so far.
abbrev pub carriage_return : ℕ
carriage_return = 13

abbrev pub form_feed : ℕ
form_feed = 12

abbrev pub ends_line : ℕ → Bool
ends_line c =
    (leb 10 c && leb c 13) || (leb 28 c && leb c 30) || eqb c 133 || eqb c 8232 || eqb c 8233

abbrev pub last_line : Text → List Text
last_line [] = []
last_line (c ∷ cs) = (c ∷ cs) ∷ []

abbrev pub starts_newline : Text → Bool
starts_newline [] = false
starts_newline (c ∷ cs) = eqb c newline

unfoldable pub splitlines_from : Text → Text → List Text
splitlines_from seen [] = last_line seen
splitlines_from seen (c ∷ cs) =
    elim (ends_line c && not (eqb c carriage_return && starts_newline cs)) [
      | true ↦ (seen ++ c ∷ []) ∷ splitlines_from [] cs
      | false ↦ splitlines_from (seen ++ c ∷ []) cs
    ]

abbrev pub splitlines : Text → List Text
splitlines t = splitlines_from [] t

-- A line without its end.
abbrev pub chomp : Text → Text
chomp [] = []
chomp (c ∷ []) = if ends_line c then [] else c ∷ []
chomp (c ∷ d ∷ []) =
    if eqb c carriage_return && eqb d newline
    then []
    else if ends_line d
    then c ∷ []
    else c ∷ d ∷ []
chomp (c ∷ d ∷ e ∷ rest) = c ∷ chomp (d ∷ e ∷ rest)

-- `t.splitlines()`
unfoldable pub text_lines : Text → List Text
unfolding splitlines_from
text_lines t = map chomp (splitlines t)

abbrev pub max_read_lines : ℕ
max_read_lines = 2000

-- What a ranged read gives back: the lines, or an error.
pub data ReadOutcome : Type 0 where
  contents : Text → ReadOutcome
  start_not_positive : ReadOutcome
  past_the_end : ℕ → ℕ → ReadOutcome
  end_before_start : ℕ → ℕ → ReadOutcome

-- The last line of a range: that of the file where none is given or the file has fewer.
abbrev pub last_of : Option ℕ → ℕ → ℕ
last_of none total = total
last_of (some stop) total = if ltb total stop then total else stop

-- `start or 1`: a missing line, and line 0, are the first.
abbrev pub first_of : Option ℕ → ℕ
first_of none = 1
first_of (some start) = if eqb start 0 then 1 else start

-- `read_file` on a range, from the number of lines and the text that the command printed, with the
-- limit on the output of the call.
unfoldable pub ranged_read : Option ℕ → Option ℕ → ℕ → Text → Option ℕ → ReadOutcome
unfolding line_window splitlines_from
ranged_read from_line to_line total text limit =
    let start = first_of from_line in
    let stop = last_of to_line total in
    if ltb total start
    then past_the_end start total
    else if ltb stop start
    then end_before_start stop start
    else let stop' =
        if ltb max_read_lines (stop - start + 1) then start + max_read_lines - 1 else stop in
      contents (line_window (take (stop' - start + 1) (splitlines text)) start stop' total limit)
