-- ===== src/Config/Checks.antt =====
-- The checks on what a configuration file says: `validate_filter_path` and the validators of
-- `ProviderProfile` and `RefSpec` (src/xarness/config.py). None is a `ValueError`, its text left
-- out. `Path(t).parts` is written out over the parts of the text.
use xarness.Prelude.{
  Bool, not, ◌&&◌, ◌||◌, Option, none, some, List, [], ◌∷◌, ◌++◌, Text, codes, nonempty, any,
  filter, is_some, if◌then◌else◌,
}
use mathlib.Core.List.{reverse}
use xarness.Prelude.Strip.{strip, drop_prefix}
use xarness.Sandbox.Paths.{
  slash, parts, is_absolute, is_dot, is_parent, normpath, refs_anchor, drop_slashes,
}

-- `t.strip("/")`
abbrev pub strip_slashes : Text → Text
strip_slashes t = reverse (drop_slashes (reverse (drop_slashes t)))

-- `t.rstrip("/")`
abbrev pub rstrip_slashes : Text → Text
rstrip_slashes t = reverse (drop_slashes (reverse t))

-- `Path(t).parts` of a relative path
abbrev pub path_parts : Text → List Text
path_parts t = filter (λ part. nonempty part && not (is_dot part)) (parts t)

-- `".." in Path(t).parts`
abbrev pub goes_up : Text → Bool
goes_up t = any is_parent (parts t)

-- `t.startswith(prefix)`
abbrev pub has_prefix : Text → Text → Bool
has_prefix prefix t = is_some (drop_prefix prefix t)

-- `validate_filter_path`
unfoldable pub validate_filter_path : Text → Option Text
unfolding strip
validate_filter_path entry =
    let raw = strip entry in
    if not (nonempty raw) || is_absolute raw || not (nonempty (path_parts raw)) || goes_up raw
    then none
    else some raw

-- `SandboxSettings._validate_filter_list`: the entries stay as they are.
unfoldable pub validate_filter_list : List Text → Option (List Text)
unfolding validate_filter_path
validate_filter_list entries =
    if any (λ entry. not (is_some (validate_filter_path entry))) entries then none else some entries

-- `ProviderProfile._validate_base_url`
unfoldable pub validate_base_url : Text → Option Text
unfolding strip
validate_base_url value =
    let url = rstrip_slashes (strip value) in
    if has_prefix (codes "http://") url || has_prefix (codes "https://") url then some url else none

-- `ProviderProfile._validate_api_key_env`
unfoldable pub validate_api_key_env : Option Text → Option Text
unfolding strip
validate_api_key_env none = none
validate_api_key_env (some value) = if nonempty (strip value) then some value else none

-- `RefSpec._validate_path`
unfoldable pub validate_path : Text → Option Text
unfolding strip
validate_path value =
    let path = strip value in if not (nonempty path) || goes_up path then none else some path

-- An absolute mount is below the anchor of the references.
unfoldable pub below_refs : Text → Option Text
unfolding normpath
below_refs value =
    let mount = normpath value in
    if has_prefix (refs_anchor ++ slash ∷ []) mount then some mount else none

-- `RefSpec._validate_mount`; the inner none is a mount that is not given.
abbrev relative_mount : Text → Option (Option Text)
relative_mount value =
    if not (nonempty value)
    then some none
    else if goes_up value || has_prefix (codes ".git") value
    then none
    else some (some value)

abbrev given : Option Text → Option (Option Text)
given none = none
given (some mount) = some (some mount)

unfoldable pub validate_mount : Option Text → Option (Option Text)
unfolding strip below_refs
validate_mount none = some none
validate_mount (some text) =
    let value = strip text in
    if not (nonempty value)
    then some none
    else if is_absolute value
    then given (below_refs value)
    else relative_mount (strip_slashes value)
