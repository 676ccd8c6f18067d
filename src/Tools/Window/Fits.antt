-- ===== src/Tools/Window/Fits.antt =====
-- The line window of src/xarness/tools.py against the limit on a result.
use xarness.Prelude.{
  ℕ, zero, suc, ◌+◌, ◌≤◌, ◌≡◌, ◌⊎◌, refl, sym, ap, ◌∙◌, Bool, true, false, not, ◌&&◌, ◌||◌, none,
  some, List, [], ◌∷◌, ◌++◌, Text, arith, append_assoc, append-nil, length, take, ltb, leb, leb→le,
  eqb, Bool-cases, inl, inr, if◌then◌else◌,
}
use xarness.Tools.Window.{
  concat, newlines, through_newline, render, shrink, kept_lines, line_window, ends_line,
  splitlines_from, form_feed, newline, contents, ranged_read,
}

newlines-through_newline : (t : Text) → newlines (through_newline t) ≡ newlines t
unfolding newlines through_newline
newlines-through_newline [] = refl
newlines-through_newline (c ∷ cs) =
    let h = newlines-through_newline cs in
    elim (Bool-cases (eqb c newline || ltb 0 (newlines cs))) [
      | inl e ↦ rw (e, h) refl
      | inr e ↦ rw e (ground arith)
    ]

module _ (lines : List Text) (start stop total : ℕ) where
  shrink_step :
      (limit kept : ℕ)
      → shrink lines start stop total limit (suc (suc kept)) ≡ (
          if ltb limit (length (render lines start stop total (suc (suc kept))))
          then shrink lines start stop total limit (suc kept)
          else suc (suc kept))
  unfolding shrink
  shrink_step limit kept = let e : ltb 0 (suc kept) ≡ true = ground arith in rw e refl

  shrink_one : (limit : ℕ) → shrink lines start stop total limit 1 ≡ 1
  unfolding shrink
  shrink_one limit = refl

  -- With each of the next `more` lines too, the text is over the limit.
  abbrev pub none_fits : ℕ → ℕ → ℕ → Bool
  none_fits limit kept zero = true
  none_fits limit kept (suc more) =
      ltb limit (length (render lines start stop total (kept + suc more)))
      && none_fits limit kept more

  -- What is kept is the longest part that fits, of those up to `most` lines, and at least a line.
  record Longest (limit most kept more : ℕ) : Type 0 where
    some_line : 1 ≤ kept
    fits : (length (render lines start stop total kept) ≤ limit) ⊎ (kept ≡ 1)
    all_lines : most ≤ kept + more
    over : none_fits limit kept more ≡ true

  Longest-less :
      (limit kept less more : ℕ)
      → ltb limit (length (render lines start stop total (suc kept))) ≡ true
      → Longest limit kept less more
      → less + more ≡ kept
      → Longest limit (suc kept) less (suc more)
  Longest-less limit kept less more e l k = record {
    some_line = l.some_line;
    fits = l.fits;
    all_lines = omega (arith, k);
    over = let same : less + suc more ≡ suc kept = omega (arith, k) in rw (same, e) l.over;
  }

  shrink-Longest :
      (limit kept : ℕ)
      → 1 ≤ kept
      → (more : ℕ) × Longest limit kept (shrink lines start stop total limit kept) more
        × (shrink lines start stop total limit kept + more ≡ kept)
  shrink-Longest limit zero h = absurd (omega arith)
  shrink-Longest limit (suc zero) h = rw (shrink_one limit) (
    0,
    record { some_line = omega arith; fits = inr refl; all_lines = omega arith; over = refl },
    refl,
  )
  shrink-Longest limit (suc (suc kept)) h =
      elim (Bool-cases (ltb limit (length (render lines start stop total (suc (suc kept)))))) [
        | inl e ↦
            let (more, l, k) = shrink-Longest limit (suc kept) (omega arith) in
            rw (shrink_step limit kept, e)
              (
                suc more,
                Longest-less limit (suc kept) (shrink lines start stop total limit (suc kept)) more
                    e l k,
                omega (arith, k),
              )
        | inr e ↦
            let k : length (render lines start stop total (suc (suc kept))) ≤ limit =
              ground arith in
            rw (shrink_step limit kept, e)
              (
                0,
                record {
                  some_line = omega arith;
                  fits = inl k;
                  all_lines = omega arith;
                  over = refl;
                },
                omega arith,
              )
      ]

  kept_lines-Longest :
      (limit : ℕ)
      → (more : ℕ) × Longest limit
          (newlines (take limit (concat lines)))
          (kept_lines lines start stop total limit)
          more
  unfolding kept_lines
  kept_lines-Longest limit =
      let cut = take limit (concat lines) in
      let n = newlines (through_newline cut) in
      let same : newlines cut ≡ n = sym (newlines-through_newline cut) in
      elim (Bool-cases (eqb n 0)) [
        | inl e ↦
            let k : n ≡ 0 = ground arith in
            rw (same, e)
              (
                0,
                record {
                  some_line = omega arith;
                  fits = inr refl;
                  all_lines = omega (arith, k);
                  over = refl;
                },
              )
        | inr e ↦
            let k : 1 ≤ n = ground arith in
            let (more, l, _) = shrink-Longest limit n k in rw (same, e) (more, l)
      ]

  -- What a read of some lines hands back under a limit is a first part of the lines, whole lines
  -- with no hole and at least one, and its footer. It keeps the limit, unless it shows one line.
  -- Either it shows all the lines, or it is the longest such part: each longer one, up to as many
  -- lines as there are newlines in the first characters up to the limit, is over it.
  pub line_window_fits :
      (limit : ℕ)
      → 1 ≤ length lines
      → (kept : ℕ) × (more : ℕ) × (line_window lines start stop total (some limit)
          ≡ render lines start stop total kept)
        × (1 ≤ kept)
        × ((length (render lines start stop total kept) ≤ limit) ⊎ (kept ≡ 1))
        × ((kept ≡ length lines)
            ⊎ ((newlines (take limit (concat lines)) ≤ kept + more)
                × (none_fits limit kept more ≡ true)))
  unfolding line_window
  line_window_fits limit h =
      elim (Bool-cases (leb (length (render lines start stop total (length lines))) limit)) [
        | inl e ↦ rw e (length lines, 0, refl, h, inl (leb→le _ limit e), inl refl)
        | inr e ↦
            let (more, l) = kept_lines-Longest limit in
            rw e (
              kept_lines lines start stop total limit,
              more,
              refl,
              l.some_line,
              l.fits,
              inr (l.all_lines, l.over),
            )
      ]

-- No character of the text ends a line.
abbrev pub one_line : Text → Bool
one_line [] = true
one_line (c ∷ cs) = not (ends_line c) && one_line cs

splitlines_from-form_feed :
    (seen a b : Text)
    → one_line a ≡ true
    → splitlines_from seen (a ++ form_feed ∷ b)
      ≡ (seen ++ (a ++ form_feed ∷ [])) ∷ splitlines_from [] b
unfolding splitlines_from
splitlines_from-form_feed seen [] b h = refl
splitlines_from-form_feed seen (c ∷ cs) b h =
    let e : ends_line c ≡ false = ground arith in
    let k : one_line cs ≡ true = ground arith in
    rw (splitlines_from, e)
      (splitlines_from-form_feed (seen ++ c ∷ []) cs b k
        ∙ ap (λ t. t ∷ splitlines_from [] b) (append_assoc seen (c ∷ []) (cs ++ form_feed ∷ [])))

-- The command counts the lines of a file by their newlines, but the text it prints is split at every
-- character at which Python ends a line. A read of the one line of a file shows it through its first
-- form feed, and nothing says that the rest is missing.
pub ranged_read-form_feed :
    (a b : Text)
    → one_line a ≡ true
    → ranged_read (some 1) (some 1) 1 (a ++ form_feed ∷ b) none ≡ contents (a ++ form_feed ∷ [])
unfolding ranged_read line_window render
ranged_read-form_feed a b h =
    rw (splitlines_from-form_feed [] a b h) (ap contents (append-nil (a ++ form_feed ∷ [])))
