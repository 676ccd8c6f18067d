-- ===== src/Git/Changes/Printed.antt =====
-- `_parse_status_z` of src/xarness/gitwork.py against the listing that git documents for
-- `--name-status -z`.
use xarness.Prelude.{
  ℕ, ◌≡◌, refl, sym, ap, ◌∙◌, inl, inr, Bool, true, false, List, [], ◌∷◌, ◌++◌, Text, nonempty, eqb,
  contains_code, Bool-cases, map,
}
use xarness.Prelude.Split.{split_on, split_from, split_on-sep}
use xarness.Prelude.Strip.{strip}
use xarness.Git.Changes.{nul, two_paths, Change, status_rows, parse_status_z}

-- A row of `--name-status -z`: a status and a path, or a rename or a copy with its two paths.
pub data StatusRow : Type 0 where
  changed : Text → Text → StatusRow
  moved : Text → Text → Text → StatusRow

abbrev pub print_status : List StatusRow → Text
print_status [] = []
print_status (changed status path ∷ rows) = status ++ nul ∷ (path ++ nul ∷ print_status rows)
print_status (moved status old dest ∷ rows) =
    status ++ nul ∷ (old ++ nul ∷ (dest ++ nul ∷ print_status rows))

-- A status and the path that callers mean.
abbrev pub change_of : StatusRow → Change
change_of (changed status path) = (status, path)
change_of (moved status old dest) = (status, dest)

-- A status as git prints it: not blank, no blank at its ends, and no NUL.
pub record IsStatus (status : Text) (two : Bool) : Type 0 where
  pub stripped : strip status ≡ status
  pub filled : nonempty status ≡ true
  pub paths : two_paths status ≡ two
  pub whole : contains_code nul status ≡ false

abbrev pub IsRow : StatusRow → Type 0
IsRow (changed status path) = IsStatus status false × (contains_code nul path ≡ false)
IsRow (moved status old dest) =
    IsStatus status true × (contains_code nul old ≡ false) × (contains_code nul dest ≡ false)

abbrev pub AllRows : List StatusRow → Type 0
AllRows [] = Unit
AllRows (row ∷ rows) = IsRow row × AllRows rows

status_rows-changed :
    (status path : Text) (f : Text) (fields : List Text)
    → IsStatus status false
    → status_rows (status ∷ path ∷ f ∷ fields) ≡ (status, path) ∷ status_rows (f ∷ fields)
unfolding status_rows
status_rows-changed status path f fields i = rw (i.stripped, i.filled, i.paths) refl

status_rows-moved :
    (status old dest : Text) (fields : List Text)
    → IsStatus status true
    → status_rows (status ∷ old ∷ dest ∷ fields) ≡ (status, dest) ∷ status_rows fields
unfolding status_rows
status_rows-moved status old dest fields i = rw (i.stripped, i.filled, i.paths) refl

-- The parts of a text are one at least.
pub split_from-cons :
    (sep : ℕ) (seen t : Text) → (f : Text) × (fs : List Text) × (split_from sep seen t ≡ f ∷ fs)
split_from-cons sep seen [] = (seen, [], refl)
split_from-cons sep seen (c ∷ cs) = elim (Bool-cases (eqb c sep)) [
  | inl e ↦ (seen, split_from sep [] cs, rw e refl)
  | inr e ↦ rw e (split_from-cons sep (seen ++ c ∷ []) cs)
]

-- A listing of changes is read back row by row, whatever the paths hold but NUL, and of a rename or
-- a copy the second path is kept.
pub parse_status_z-print_status :
    (rows : List StatusRow) → AllRows rows → parse_status_z (print_status rows) ≡ map change_of rows
unfolding parse_status_z
parse_status_z-print_status [] h = refl
parse_status_z-print_status (changed status path ∷ rows) ((i, p), h) =
    let t = print_status rows in
    let (f, fs, e) = split_from-cons nul [] t in
    ap status_rows (
      split_on-sep nul status (path ++ nul ∷ t) i.whole
      ∙ ap (λ r. status ∷ r) (split_on-sep nul path t p)
      ∙ ap (λ r. status ∷ path ∷ r) e)
    ∙ status_rows-changed status path f fs i
    ∙ ap (λ r. (status, path) ∷ status_rows r) (sym e)
    ∙ ap (λ r. (status, path) ∷ r) (parse_status_z-print_status rows h)
parse_status_z-print_status (moved status old dest ∷ rows) ((i, p, q), h) =
    let t = print_status rows in
    ap status_rows (
      split_on-sep nul status (old ++ nul ∷ (dest ++ nul ∷ t)) i.whole
      ∙ ap (λ r. status ∷ r) (split_on-sep nul old (dest ++ nul ∷ t) p)
      ∙ ap (λ r. status ∷ old ∷ r) (split_on-sep nul dest t q))
    ∙ status_rows-moved status old dest (split_on nul t) i
    ∙ ap (λ r. (status, dest) ∷ r) (parse_status_z-print_status rows h)
