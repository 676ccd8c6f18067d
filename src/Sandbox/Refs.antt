-- ===== src/Sandbox/Refs.antt =====
-- The external references of a sandbox: `ContainerRef`, `bind_ref` and
-- `SandboxConfig.resolve_auto_refs` of src/xarness/sandbox.py. The files of the host are arguments:
-- `resolve` makes a path absolute and resolves it, from the workspace on, and `exists` tests it.
pub mod Aliases
pub mod Mounts
use xarness.Prelude.{
  ℕ, zero, suc, ◌+◌, ◌-◌, Bool, true, false, not, ◌&&◌, ◌||◌, Option, none, some, List, [], ◌∷◌,
  ◌++◌, Text, codes, nonempty, filter, any, length, drop, last?, if◌then◌else◌,
}
use xarness.Prelude.Strip.{strip, text_eq}
use xarness.Prelude.Split.{join_on}
use xarness.Sandbox.Paths.{slash, parts, is_absolute, refs_anchor}
use xarness.Config.{RefSpec}
use xarness.Config.Checks.{strip_slashes, goes_up, has_prefix, below_refs}

pub record ContainerRef : Type 0 where
  pub host : Text
  pub mount : Text
  pub read_only : Bool

-- A dict from aliases.
abbrev pub Refs : Type 0
Refs = List (Text × ContainerRef)

abbrev pub ref_at : Text → Refs → Option ContainerRef
ref_at alias [] = none
ref_at alias ((key, ref) ∷ refs) = if text_eq key alias then some ref else ref_at alias refs

abbrev pub put_ref : Text → ContainerRef → Refs → Refs
put_ref alias ref [] = (alias, ref) ∷ []
put_ref alias ref ((key, old) ∷ refs) =
    if text_eq key alias then (key, ref) ∷ refs else (key, old) ∷ put_ref alias ref refs

-- `host_path.parts` of a resolved path
abbrev pub host_parts : Text → List Text
host_parts host = codes "/" ∷ filter nonempty (parts host)

-- `host_path.name`
abbrev pub or_empty_name : Option Text → Text
or_empty_name none = []
or_empty_name (some name) = name

abbrev pub host_name : Text → Text
host_name host = or_empty_name (last? (filter nonempty (parts host)))

-- `"-".join(host_path.parts[-depth:])`
abbrev pub dashed : ℕ → Text → Text
dashed depth host = let all = host_parts host in join_on 45 (drop (length all - depth) all)

-- `existing is None or existing.host == host_path`
abbrev pub is_free : Text → Option ContainerRef → Bool
is_free host none = true
is_free host (some existing) = text_eq existing.host host

-- The loop over the depths, of which `rounds` are left.
unfoldable pub alias_from : Refs → Text → ℕ → ℕ → Text → Text
alias_from refs host zero depth alias = alias
alias_from refs host (suc rounds) depth alias =
    let deeper = alias_from refs host rounds (depth + 1) (dashed depth host) in
    if is_free host (ref_at alias refs) then alias else deeper

unfoldable pub choose_alias : Refs → Text → Option Text → Text
unfolding alias_from
choose_alias refs host (some alias) = alias
choose_alias refs host none = alias_from refs host (length (host_parts host) - 1) 2 (host_name host)

-- The mount of `bind_ref`, when it is not absolute.
abbrev pub relative_ref_mount : Text → Option Text
relative_ref_mount mount =
    if not (nonempty mount)
      || goes_up mount
      || text_eq mount (codes ".")
      || text_eq mount (codes ".git")
      || has_prefix (codes ".git/") mount
    then none
    else some mount

abbrev pub or_canonical : Text → Option Text → Text
or_canonical alias none = refs_anchor ++ slash ∷ alias
or_canonical alias (some mount) = mount

unfoldable pub checked_mount : Text → Option Text
unfolding below_refs
checked_mount value =
    if is_absolute value then below_refs value else relative_ref_mount (strip_slashes value)

unfoldable pub ref_mount : Text → Option Text → Option Text
unfolding strip checked_mount
ref_mount alias mount = checked_mount (strip (or_canonical alias mount))

-- `FileNotFoundError`, `ValueError`, and the references with the new one.
pub data Bound : Type 0 where
  not_found invalid : Bound
  bound : Refs → Bound

-- `bind_ref`, with the host's path resolved
unfoldable pub bind_ref : (Text → Bool) → Refs → Text → Option Text → Option Text → Bool → Bound
unfolding choose_alias ref_mount
bind_ref exists refs host alias mount read_only =
    if not (exists host)
    then not_found
    else let name = choose_alias refs host alias in
      elim (ref_mount name mount) [
        | none ↦ invalid
        | some target ↦
            bound
              (put_ref name (record { host = host; mount = target; read_only = read_only }) refs)
      ]

-- `resolve_auto_refs`: a path that is missing is skipped; none is the `ValueError`.
unfoldable pub resolve_auto_refs : (Text → Text) → (Text → Bool) → List RefSpec → Refs → Option Refs
unfolding bind_ref
resolve_auto_refs resolve exists [] refs = some refs
resolve_auto_refs resolve exists (spec ∷ specs) refs =
    let skipped = resolve_auto_refs resolve exists specs refs in
    elim (bind_ref exists refs (resolve spec.path) none spec.mount spec.read_only) [
      | not_found ↦ skipped
      | invalid ↦ none
      | bound more ↦ resolve_auto_refs resolve exists specs more
    ]
