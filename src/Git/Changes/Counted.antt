-- ===== src/Git/Changes/Counted.antt =====
-- `_parse_numstat_z` of src/xarness/gitwork.py against the listing that git documents for
-- `--numstat -z`.
use xarness.Prelude.{
  ℕ, ◌<◌, ◌≡◌, refl, sym, ap, ◌∙◌, true, false, Option, none, some, List, [], ◌∷◌, ◌++◌, Text,
  codes, nonempty, contains_code, arith, map,
}
use xarness.Prelude.Decimal.{decimal, decimal-codes, digits_value-decimal}
use xarness.Prelude.Split.{split_on, join_on, split_on-sep, join_on-split_on, contains_code-append}
use xarness.Git.Changes.{
  nul, tab, DiffFile, line_count, is_dash, diff_file, one_path, next_paths, num_entry_of,
  numstat_rows, parse_numstat_z,
}
use xarness.Git.Changes.Printed.{split_from-cons}

-- A row of `--numstat -z`: the counts of added and deleted lines, none for a binary file, and the
-- path, or the two paths of a rename.
pub data NumRow : Type 0 where
  counted : Option ℕ → Option ℕ → Text → NumRow
  renamed : Option ℕ → Option ℕ → Text → Text → NumRow

abbrev pub print_count : Option ℕ → Text
print_count none = codes "-"
print_count (some n) = decimal n

abbrev pub count_of : Option ℕ → ℕ
count_of none = 0
count_of (some n) = n

abbrev pub print_numstat : List NumRow → Text
print_numstat [] = []
print_numstat (counted adds dels path ∷ rows) =
    (print_count adds ++ tab ∷ (print_count dels ++ tab ∷ path)) ++ nul ∷ print_numstat rows
print_numstat (renamed adds dels old dest ∷ rows) =
    (print_count adds ++ tab ∷ (print_count dels ++ tab ∷ []))
    ++ nul ∷ (old ++ nul ∷ (dest ++ nul ∷ print_numstat rows))

abbrev pub file_of : NumRow → DiffFile
file_of (counted adds dels path) = record {
  path = path;
  additions = count_of adds;
  deletions = count_of dels;
  is_new = false;
  source = [];
}
file_of (renamed adds dels old dest) = record {
  path = dest;
  additions = count_of adds;
  deletions = count_of dels;
  is_new = false;
  source = [];
}

abbrev pub IsNumRow : NumRow → Type 0
IsNumRow (counted adds dels path) = (nonempty path ≡ true) × (contains_code nul path ≡ false)
IsNumRow (renamed adds dels old dest) =
    (contains_code nul old ≡ false) × (contains_code nul dest ≡ false)

abbrev pub AllNumRows : List NumRow → Type 0
AllNumRows [] = Unit
AllNumRows (row ∷ rows) = IsNumRow row × AllNumRows rows

print_count-codes : (c : ℕ) (n : Option ℕ) → c < 45 → contains_code c (print_count n) ≡ false
print_count-codes c none h = ground arith
print_count-codes c (some n) h = decimal-codes c n (omega arith)

not_dash : (t : Text) → contains_code 45 t ≡ false → is_dash t ≡ false
not_dash [] h = refl
not_dash (c ∷ []) h = ground arith
not_dash (c ∷ d ∷ cs) h = refl

line_count-print_count : (n : Option ℕ) → line_count (print_count n) ≡ count_of n
unfolding line_count
line_count-print_count none = refl
line_count-print_count (some n) =
    rw (not_dash (decimal n) (decimal-codes 45 n (omega arith))) (digits_value-decimal n)

-- The parts of an entry, before the path.
split_on-counts :
    (adds dels : Option ℕ) (path : Text)
    → split_on tab (print_count adds ++ tab ∷ (print_count dels ++ tab ∷ path))
      ≡ print_count adds ∷ print_count dels ∷ split_on tab path
split_on-counts adds dels path =
    split_on-sep tab (print_count adds) (print_count dels ++ tab ∷ path)
      (print_count-codes tab adds (omega arith))
    ∙ ap (λ r. print_count adds ∷ r)
        (split_on-sep tab (print_count dels) path (print_count-codes tab dels (omega arith)))

num_entry_of-counted :
    (a b path : Text)
    → nonempty path ≡ true
    → num_entry_of (a ∷ b ∷ split_on tab path) ≡ one_path (diff_file a b path)
unfolding num_entry_of
num_entry_of-counted a b path h =
    let (f, fs, e) = split_from-cons tab [] path in
    let k : join_on tab (f ∷ fs) ≡ path = ap (join_on tab) (sym e) ∙ join_on-split_on tab path in
    rw (e, k, h) refl

entry-whole :
    (adds dels : Option ℕ) (path : Text)
    → contains_code nul path ≡ false
    → contains_code nul (print_count adds ++ tab ∷ (print_count dels ++ tab ∷ path)) ≡ false
entry-whole adds dels path h = ground (
  arith,
  contains_code-append nul (print_count adds) (tab ∷ (print_count dels ++ tab ∷ path)),
  contains_code-append nul (print_count dels) (tab ∷ path),
  print_count-codes nul adds (omega arith),
  print_count-codes nul dels (omega arith),
)

numstat_rows-one_path :
    (entry f : Text) (fields : List Text) (file : DiffFile)
    → num_entry_of (split_on tab entry) ≡ one_path file
    → numstat_rows (entry ∷ f ∷ fields) ≡ file ∷ numstat_rows (f ∷ fields)
unfolding numstat_rows
numstat_rows-one_path entry f [] file h = rw (numstat_rows, h) refl
numstat_rows-one_path entry f (g ∷ fields) file h = rw (numstat_rows, h) refl

numstat_rows-next_paths :
    (entry old dest : Text) (fields : List Text) (file : Text → DiffFile)
    → num_entry_of (split_on tab entry) ≡ next_paths file
    → numstat_rows (entry ∷ old ∷ dest ∷ fields) ≡ file dest ∷ numstat_rows fields
unfolding numstat_rows
numstat_rows-next_paths entry old dest fields file h = rw (numstat_rows, h) refl

num_entry_of-renamed : (a b : Text) → num_entry_of (a ∷ b ∷ [] ∷ []) ≡ next_paths (diff_file a b)
unfolding num_entry_of
num_entry_of-renamed a b = refl

diff_file-counted :
    (adds dels : Option ℕ) (path : Text)
    → diff_file (print_count adds) (print_count dels) path ≡ file_of (counted adds dels path)
diff_file-counted adds dels path =
    rw (line_count-print_count adds, line_count-print_count dels) refl

-- A listing of line counts is read back row by row: a path may hold tabs, a binary file counts no
-- lines, and a rename is one row under its second path.
parse_numstat_z-print_numstat :
    (rows : List NumRow) → AllNumRows rows → parse_numstat_z (print_numstat rows) ≡ map file_of rows
unfolding parse_numstat_z
parse_numstat_z-print_numstat [] h = refl
parse_numstat_z-print_numstat (counted adds dels path ∷ rows) ((n, p), h) =
    let a = print_count adds in
    let b = print_count dels in
    let entry = a ++ tab ∷ (b ++ tab ∷ path) in
    let t = print_numstat rows in
    let (f, fs, e) = split_from-cons nul [] t in
    ap numstat_rows
      (split_on-sep nul entry t (entry-whole adds dels path p) ∙ ap (λ r. entry ∷ r) e)
    ∙ numstat_rows-one_path entry f fs (diff_file a b path)
        (ap num_entry_of (split_on-counts adds dels path) ∙ num_entry_of-counted a b path n)
    ∙ ap (λ r. diff_file a b path ∷ numstat_rows r) (sym e)
    ∙ ap (λ r. r ∷ parse_numstat_z t) (diff_file-counted adds dels path)
    ∙ ap (λ r. file_of (counted adds dels path) ∷ r) (parse_numstat_z-print_numstat rows h)
parse_numstat_z-print_numstat (renamed adds dels old dest ∷ rows) ((p, q), h) =
    let a = print_count adds in
    let b = print_count dels in
    let entry = a ++ tab ∷ (b ++ tab ∷ []) in
    let t = print_numstat rows in
    ap numstat_rows (
      split_on-sep nul entry (old ++ nul ∷ (dest ++ nul ∷ t)) (entry-whole adds dels [] refl)
      ∙ ap (λ r. entry ∷ r) (split_on-sep nul old (dest ++ nul ∷ t) p)
      ∙ ap (λ r. entry ∷ old ∷ r) (split_on-sep nul dest t q))
    ∙ numstat_rows-next_paths entry old dest (split_on nul t) (diff_file a b)
        (ap num_entry_of (split_on-counts adds dels []) ∙ num_entry_of-renamed a b)
    ∙ ap (λ r. r ∷ parse_numstat_z t) (diff_file-counted adds dels dest)
    ∙ ap (λ r. file_of (counted adds dels dest) ∷ r) (parse_numstat_z-print_numstat rows h)
