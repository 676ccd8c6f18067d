-- ===== src/Git/Stats/Cached.antt =====
-- The cache of diffs of src/xarness/gitwork.py against the diffs themselves.
use xarness.Prelude.{
  ◌≤◌, ◌≡◌, refl, sym, ap, ◌∙◌, inl, inr, true, Option, none, some, List, [], ◌∷◌, ◌++◌, String,
  eq_iff, Text, length, leb, drop, Bool-cases, Option-cases, arith, suc,
}
use xarness.Git.Changes.{DiffStat}
use xarness.Git.Stats.{
  Key, key_eq, Cache, cache_limit, cache_get, cache_set, cache_put, diff_between, tree_diff_stat,
  touched_by, turn_keys, attributed_diff_stat, stat_of, paths, tag_files,
}

key_eq-eq : (a b : Key) → key_eq a b ≡ true → a ≡ b
key_eq-eq a b h =
    let p = (eq_iff a.subtree b.subtree).0 (ground arith) in
    let q = (eq_iff a.base_tree b.base_tree).0 (ground arith) in
    let r = (eq_iff a.other_tree b.other_tree).0 (ground arith) in
    λ i. record { subtree = p i; base_tree = q i; other_tree = r i }

cache_set-length :
    (key : Key) (v : Text × Text) (cache : Cache)
    → length (cache_set key v cache) ≤ suc (length cache)
cache_set-length key v [] = omega arith
cache_set-length key v ((k, w) ∷ cache) = ground (arith, cache_set-length key v cache)

cache_put-length :
    (key : Key) (v : Text × Text) (cache : Cache)
    → length cache ≤ cache_limit
    → length (cache_put cache key v) ≤ cache_limit
unfolding cache_put
cache_put-length key v [] h = ground (arith, cache_set-length key v [])
cache_put-length key v (entry ∷ cache) h =
    ground (arith, cache_set-length key v (entry ∷ cache), cache_set-length key v cache)

module _ (numstat status : Key → Option Text) where
  -- Every entry is what git prints for its trees.
  abbrev pub Sound : Cache → Type 0
  Sound [] = Unit
  Sound ((k, v) ∷ cache) = (numstat k ≡ some v.0) × (status k ≡ some v.1) × Sound cache

  cache_get-Sound :
      (key : Key) (cache : Cache) (v : Text × Text)
      → Sound cache
      → cache_get key cache ≡ some v
      → (numstat key ≡ some v.0) × (status key ≡ some v.1)
  cache_get-Sound key [] v s h = absurd (ground arith)
  cache_get-Sound key ((k, w) ∷ cache) v (n, m, s) h = elim (Bool-cases (key_eq k key)) [
    | inl e ↦
        let same = key_eq-eq k key e in
        let found : w ≡ v = ground arith in
        (
          ap numstat (sym same) ∙ n ∙ ap (λ u. some u.0) found,
          ap status (sym same) ∙ m ∙ ap (λ u. some u.1) found,
        )
    | inr e ↦ cache_get-Sound key cache v s (ground arith)
  ]

  cache_set-Sound :
      (key : Key) (v : Text × Text) (cache : Cache)
      → numstat key ≡ some v.0
      → status key ≡ some v.1
      → Sound cache
      → Sound (cache_set key v cache)
  cache_set-Sound key v [] n m s = (n, m, s)
  cache_set-Sound key v ((k, w) ∷ cache) n m (n', m', s) = elim (Bool-cases (key_eq k key)) [
    | inl e ↦ let same = key_eq-eq k key e in rw e (ap numstat same ∙ n, ap status same ∙ m, s)
    | inr e ↦ rw e (n', m', cache_set-Sound key v cache n m s)
  ]

  drop-Sound : (cache : Cache) → Sound cache → Sound (drop 1 cache)
  drop-Sound [] s = s
  drop-Sound ((k, w) ∷ cache) (n, m, s) = s

  cache_put-Sound :
      (key : Key) (v : Text × Text) (cache : Cache)
      → numstat key ≡ some v.0
      → status key ≡ some v.1
      → Sound cache
      → Sound (cache_put cache key v)
  unfolding cache_put
  cache_put-Sound key v cache n m s = elim (Bool-cases (leb cache_limit (length cache))) [
    | inl e ↦ rw e (cache_set-Sound key v (drop 1 cache) n m (drop-Sound cache s))
    | inr e ↦ rw e (cache_set-Sound key v cache n m s)
  ]

  -- What git prints for a pair of trees, where both commands succeed.
  abbrev pub direct : Key → Option (Text × Text)
  direct key = elim (numstat key) [
    | none ↦ none
    | some n ↦ elim (status key) [ none ↦ none | some s ↦ some (n, s) ]
  ]

  abbrev pub CacheFits : Cache → Type 0
  CacheFits cache = Sound cache × (length cache ≤ cache_limit)

  diff_between-direct :
      (cache : Cache) (key : Key)
      → CacheFits cache
      → ((diff_between numstat status cache key).0 ≡ direct key)
        × CacheFits (diff_between numstat status cache key).1
  unfolding diff_between
  diff_between-direct cache key (s, l) = elim (Option-cases (cache_get key cache)) [
    | inr (v, e) ↦
        let (n, m) = cache_get-Sound key cache v s e in
        rw (diff_between, direct, e, n, m) (refl, (s, l))
    | inl e ↦ elim (Option-cases (numstat key)) [
      | inl n ↦ rw (diff_between, direct, e, n) (refl, (s, l))
      | inr (a, n) ↦ elim (Option-cases (status key)) [
        | inl m ↦ rw (diff_between, direct, e, n, m) (refl, (s, l))
        | inr (b, m) ↦
            rw (diff_between, direct, e, n, m)
              (refl, (cache_put-Sound key (a, b) cache n m s, cache_put-length key (a, b) cache l))
      ]
    ]
  ]

  -- The statistic without a cache.
  abbrev pub direct_stat : Key → Option DiffStat
  direct_stat key = elim (direct key) [ none ↦ none | some value ↦ some (stat_of value) ]

  tree_diff_stat-direct :
      (cache : Cache) (key : Key)
      → CacheFits cache
      → ((tree_diff_stat numstat status cache key).0 ≡ direct_stat key)
        × CacheFits (tree_diff_stat numstat status cache key).1
  unfolding tree_diff_stat
  tree_diff_stat-direct cache key s =
      let (e, s') = diff_between-direct cache key s in
      (
        ap
            (λ o. elim o as (λ x. Option DiffStat) [
              | none ↦ none
              | some value ↦ some (stat_of value)
            ])
            e,
        s',
      )

  abbrev pub direct_touched : List Key → List Text → Option (List Text)
  direct_touched [] touched = some touched
  direct_touched (key ∷ keys) touched = elim (direct_stat key) [
    | none ↦ none
    | some s ↦ direct_touched keys (touched ++ paths s.files)
  ]

  touched_by-direct :
      (keys : List Key) (touched : List Text) (cache : Cache)
      → CacheFits cache
      → ((touched_by numstat status keys touched cache).0 ≡ direct_touched keys touched)
        × CacheFits (touched_by numstat status keys touched cache).1
  unfolding touched_by
  touched_by-direct [] touched cache s = (refl, s)
  touched_by-direct (key ∷ keys) touched cache s =
      let (e, s') = tree_diff_stat-direct cache key s in
      elim (Option-cases (direct_stat key)) [
        | inl n ↦ rw (touched_by, direct_touched, e, n) (refl, s')
        | inr (t, n) ↦
            rw (touched_by, direct_touched, e, n)
              (touched_by-direct keys (touched ++ paths t.files)
                (tree_diff_stat numstat status cache key).1 s')
      ]

  -- `attributed_diff_stat` without a cache.
  abbrev pub direct_attributed :
      String → String → List (String × String) → String → String → Option DiffStat
  direct_attributed subtree baseline turns open_before current =
      elim (direct_stat
        (record { subtree = subtree; base_tree = baseline; other_tree = current })) [
          | none ↦ none
          | some t ↦
              elim (direct_touched (turn_keys numstat status subtree turns open_before current)
                []) [ none ↦ none | some ps ↦ some (tag_files ps t) ]
        ]

  -- The pending changes with their tags are what git's diffs say, whatever the cache holds of them,
  -- if every entry of it is what git printed for its trees; and after the call that is so again, of a
  -- cache with no more entries than the limit.
  pub attributed_diff_stat-direct :
      (subtree baseline : String) (turns : List (String × String)) (open_before current : String)
      (cache : Cache)
      → CacheFits cache
      → let after =
          attributed_diff_stat numstat status subtree baseline turns open_before current cache in
        (after.0 ≡ direct_attributed subtree baseline turns open_before current) × CacheFits after.1
  unfolding attributed_diff_stat
  attributed_diff_stat-direct subtree baseline turns open_before current cache s =
      let key : Key = record { subtree = subtree; base_tree = baseline; other_tree = current } in
      let keys = turn_keys numstat status subtree turns open_before current in
      let (e, s') = tree_diff_stat-direct cache key s in
      let (f, s'') = touched_by-direct keys [] (tree_diff_stat numstat status cache key).1 s' in
      elim (Option-cases (direct_stat key)) [
        | inl n ↦ rw (attributed_diff_stat, direct_attributed, e, n) (refl, s')
        | inr (t, n) ↦ elim (Option-cases (direct_touched keys [])) [
          | inl m ↦ rw (attributed_diff_stat, direct_attributed, e, n, f, m) (refl, s'')
          | inr (ps, m) ↦ rw (attributed_diff_stat, direct_attributed, e, n, f, m) (refl, s'')
        ]
      ]
