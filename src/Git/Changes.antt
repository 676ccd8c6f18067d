-- ===== src/Git/Changes.antt =====
-- `_parse_status_z` and `_parse_numstat_z` of src/xarness/gitwork.py, and the records `DiffFile` and
-- `DiffStat`.
pub mod Printed
pub mod Counted
use xarness.Prelude.{
  ℕ, ◌+◌, ◌-◌, ◌*◌, Bool, true, false, not, ◌||◌, List, [], ◌∷◌, ◌++◌, Text, codes, nonempty, eqb,
  if◌then◌else◌,
}
use xarness.Prelude.Split.{split_on, join_on}
use xarness.Prelude.Decimal.{digits_value}
use xarness.Prelude.Strip.{strip}

abbrev pub nul : ℕ
nul = 0

abbrev pub tab : ℕ
tab = 9

-- `status[0] in "RC"`
abbrev pub two_paths : Text → Bool
two_paths [] = false
two_paths (c ∷ cs) = eqb c 82 || eqb c 67

abbrev pub Change : Type 0
Change = Text × Text

-- The loop of `_parse_status_z`, on the fields.
unfoldable pub status_rows : List Text → List Change
unfolding strip
status_rows [] = []
status_rows (status ∷ []) = []
status_rows (status ∷ path ∷ []) =
    if not (nonempty (strip status)) || two_paths (strip status)
    then []
    else (strip status, path) ∷ []
status_rows (status ∷ path ∷ dest ∷ rest) =
    let skipped = status_rows (path ∷ dest ∷ rest) in
    let moved = status_rows rest in
    let plain = status_rows (dest ∷ rest) in
    if not (nonempty (strip status))
    then skipped
    else if two_paths (strip status)
    then (strip status, dest) ∷ moved
    else (strip status, path) ∷ plain

-- `_parse_status_z`
unfoldable pub parse_status_z : Text → List Change
unfolding status_rows
parse_status_z out = status_rows (split_on nul out)

pub record DiffFile : Type 0 where
  pub path : Text
  pub additions : ℕ
  pub deletions : ℕ
  pub is_new : Bool
  pub source : Text

abbrev pub is_dash : Text → Bool
is_dash [] = false
is_dash (c ∷ []) = eqb c 45
is_dash (c ∷ d ∷ cs) = false

-- `0 if adds == "-" else int(adds or 0)`, where git prints digits
unfoldable pub line_count : Text → ℕ
unfolding digits_value
line_count t = if is_dash t then 0 else digits_value 0 t

abbrev pub diff_file : Text → Text → Text → DiffFile
diff_file adds dels path = record {
  path = path;
  additions = line_count adds;
  deletions = line_count dels;
  is_new = false;
  source = [];
}

-- What the parts of an entry say of its file: nothing, its path, or that the paths are the next
-- two fields.
pub data NumEntry : Type 0 where
  no_entry : NumEntry
  one_path : DiffFile → NumEntry
  next_paths : (Text → DiffFile) → NumEntry

unfoldable pub num_entry_of : List Text → NumEntry
unfolding line_count
num_entry_of [] = no_entry
num_entry_of (adds ∷ []) = no_entry
num_entry_of (adds ∷ dels ∷ []) = no_entry
num_entry_of (adds ∷ dels ∷ p ∷ ps) =
    let path = join_on tab (p ∷ ps) in
    if nonempty path then one_path (diff_file adds dels path) else next_paths (diff_file adds dels)

-- The loop of `_parse_numstat_z`, on the fields. An entry without a tab, as the empty one, is
-- passed over.
unfoldable pub numstat_rows : List Text → List DiffFile
unfolding num_entry_of
numstat_rows [] = []
numstat_rows (entry ∷ []) = elim (num_entry_of (split_on tab entry)) [
  | no_entry ↦ []
  | one_path file ↦ file ∷ []
  | next_paths file ↦ []
]
numstat_rows (entry ∷ f ∷ []) =
    let rest = numstat_rows (f ∷ []) in
    elim (num_entry_of (split_on tab entry)) [
      | no_entry ↦ rest
      | one_path file ↦ file ∷ rest
      | next_paths file ↦ []
    ]
numstat_rows (entry ∷ f ∷ g ∷ fields) =
    let next = numstat_rows (f ∷ g ∷ fields) in
    let after = numstat_rows fields in
    elim (num_entry_of (split_on tab entry)) [
      | no_entry ↦ next
      | one_path file ↦ file ∷ next
      | next_paths file ↦ file g ∷ after
    ]

-- `_parse_numstat_z`
unfoldable pub parse_numstat_z : Text → List DiffFile
unfolding numstat_rows
parse_numstat_z out = numstat_rows (split_on nul out)

pub record DiffStat : Type 0 where
  pub files : List DiffFile
  pub additions : ℕ
  pub deletions : ℕ

abbrev pub total_additions : List DiffFile → ℕ
total_additions [] = 0
total_additions (f ∷ fs) = f.additions + total_additions fs

abbrev pub total_deletions : List DiffFile → ℕ
total_deletions [] = 0
total_deletions (f ∷ fs) = f.deletions + total_deletions fs

-- `_diff_info`
unfoldable pub diff_info : List DiffFile → DiffStat
diff_info files = record {
  files = files;
  additions = total_additions files;
  deletions = total_deletions files;
}
