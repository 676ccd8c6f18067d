-- ===== src/Git/Stats.antt =====
-- The statistics of what changed, of src/xarness/gitwork.py: the cache of diffs, `tree_diff_stat`
-- and `attributed_diff_stat`; and the state of a session's tracking, `GitInfo`. What `git diff`
-- prints for two trees is a parameter, none where git fails.
pub mod Cached
use xarness.Prelude.{
  ℕ, Bool, true, false, not, ◌&&◌, ◌||◌, Option, none, some, List, [], ◌∷◌, ◌++◌, String, ◌==◌,
  Text, codes, nonempty, length, leb, drop, any, map, filter, if◌then◌else◌, is_some, contains,
}
use xarness.Prelude.Strip.{text_eq, drop_prefix}
use xarness.Git.Changes.{Change, DiffFile, DiffStat, diff_info, parse_status_z, parse_numstat_z}

-- The subtree of the session, and two trees.
pub record Key : Type 0 where
  pub subtree : String
  pub base_tree : String
  pub other_tree : String

abbrev pub key_eq : Key → Key → Bool
key_eq a b =
    (a.subtree == b.subtree) && ((a.base_tree == b.base_tree) && (a.other_tree == b.other_tree))

-- `_numstat_cache`: what git printed for a pair of trees, the oldest entry first.
abbrev pub Cache : Type 0
Cache = List (Key × (Text × Text))

abbrev pub cache_limit : ℕ
cache_limit = 512

abbrev pub cache_get : Key → Cache → Option (Text × Text)
cache_get key [] = none
cache_get key ((k, v) ∷ cache) = if key_eq k key then some v else cache_get key cache

abbrev pub cache_set : Key → Text × Text → Cache → Cache
cache_set key value [] = (key, value) ∷ []
cache_set key value ((k, v) ∷ cache) =
    if key_eq k key then (k, value) ∷ cache else (k, v) ∷ cache_set key value cache

-- `_cache_put`
unfoldable pub cache_put : Cache → Key → Text × Text → Cache
cache_put cache key value =
    cache_set key value (if leb cache_limit (length cache) then drop 1 cache else cache)

-- The set of created paths, and the flag that it gives each file.
abbrev pub is_added : Change → Bool
is_added change = is_some (drop_prefix (codes "A") change.0)

abbrev pub mark_new : List Change → DiffFile → DiffFile
mark_new changes f = record f {
  is_new = any (λ change. is_added change && text_eq f.path change.1) changes;
}

abbrev pub stat_of : Text × Text → DiffStat
stat_of (numstat, status) =
    diff_info (map (mark_new (parse_status_z status)) (parse_numstat_z numstat))

abbrev pub paths : List DiffFile → List Text
paths [] = []
paths (f ∷ fs) = f.path ∷ paths fs

-- The tags of `attributed_diff_stat`.
abbrev pub tag : List Text → DiffFile → DiffFile
tag touched f = record f {
  source = if any (text_eq f.path) touched then codes "agent" else codes "drift";
}

abbrev pub tag_files : List Text → DiffStat → DiffStat
tag_files touched total = record total { files = map (tag touched) total.files }

module _ (numstat status : Key → Option Text) where
  -- `_diff_between`
  unfoldable pub diff_between : Cache → Key → Option (Text × Text) × Cache
  unfolding cache_put
  diff_between cache key = elim (cache_get key cache) [
    | some value ↦ (some value, cache)
    | none ↦ elim (numstat key) [
      | none ↦ (none, cache)
      | some n ↦ elim (status key) [
        | none ↦ (none, cache)
        | some s ↦ (some (n, s), cache_put cache key (n, s))
      ]
    ]
  ]

  -- `tree_diff_stat`
  unfoldable pub tree_diff_stat : Cache → Key → Option DiffStat × Cache
  unfolding diff_between
  tree_diff_stat cache key =
      let (found, cache') = diff_between cache key in
      (
        elim found as (λ o. Option DiffStat) [ none ↦ none | some value ↦ some (stat_of value) ],
        cache',
      )

  -- The paths that the turns touched, one pair of trees after the other.
  unfoldable pub touched_by : List Key → List Text → Cache → Option (List Text) × Cache
  unfolding tree_diff_stat
  touched_by [] touched cache = (some touched, cache)
  touched_by (key ∷ keys) touched cache =
      let (stat, cache') = tree_diff_stat cache key in
      elim stat [
        | none ↦ (none, cache')
        | some s ↦ touched_by keys (touched ++ paths s.files) cache'
      ]

  -- The pairs of trees of the closed turns, and that of the open one.
  abbrev pub turn_keys : String → List (String × String) → String → String → List Key
  turn_keys subtree [] open_before current =
      if open_before == ""
      then []
      else record { subtree = subtree; base_tree = open_before; other_tree = current } ∷ []
  turn_keys subtree ((before, after) ∷ turns) open_before current =
      record { subtree = subtree; base_tree = before; other_tree = after }
      ∷ turn_keys subtree turns open_before current

  -- `attributed_diff_stat`, on the tracked turns and the current tree; no open turn is "".
  unfoldable pub attributed_diff_stat :
      String → String → List (String × String) → String → String → Cache → Option DiffStat × Cache
  unfolding tree_diff_stat touched_by
  attributed_diff_stat subtree baseline turns open_before current cache =
      let (total, cache') =
        tree_diff_stat cache
          (record { subtree = subtree; base_tree = baseline; other_tree = current }) in
      let (touched, cache'') = touched_by (turn_keys subtree turns open_before current) [] cache' in
      elim total [
        | none ↦ (none, cache')
        | some t ↦ elim touched [
          | none ↦ (none, cache'')
          | some ps ↦ (some (tag_files ps t), cache'')
        ]
      ]

-- `GitInfo`, as far as it changes.
pub record GitInfo : Type 0 where
  pub baseline_tree : String
  pub last_seen_tree : String
  pub ignored_paths : List String

-- `GitInfo.mark_seen`
unfoldable pub mark_seen : String → GitInfo → GitInfo
mark_seen tree info = record info { last_seen_tree = tree }

-- `GitInfo.reset_to`
unfoldable pub reset_to : String → GitInfo → GitInfo
reset_to tree info = record info { baseline_tree = tree; last_seen_tree = tree }

-- `snapshot_state`, on the tree and the paths over the size limit that `snapshot_tree` found.
unfoldable pub snapshot_state : String → List String → GitInfo → String × GitInfo
snapshot_state tree oversized info = (
  tree,
  record info {
    ignored_paths =
        info.ignored_paths ++ filter (λ p. not (contains p info.ignored_paths)) oversized;
  },
)

-- `accept_changes`
unfoldable pub accept_changes : String → List String → GitInfo → String × GitInfo
unfolding snapshot_state
accept_changes tree oversized info =
    let (sha, info') = snapshot_state tree oversized info in
    (sha, record info' { baseline_tree = sha; last_seen_tree = sha })
