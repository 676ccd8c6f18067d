-- ===== src/Sandbox/Paths.antt =====
-- The paths of the tools: `is_refs_path`, `tool_path` and `validate_relpath` of
-- src/xarness/sandbox.py. A path is a text; `parts` are what stands between its slashes. What
-- `posixpath.normpath` and `pathlib` make of a path is written out over the parts.
use xarness.Prelude.{
  ℕ, zero, suc, ◌+◌, ◌≡◌, refl, ap, sym, ◌∙◌, Bool, true, false, not, ◌&&◌, ◌||◌, Option, none,
  some, List, [], ◌∷◌, ◌++◌, Text, codes, nonempty, any, filter, eqb, is_some, if◌then◌else◌, arith,
}
pub mod Absolute
pub mod Inside
use mathlib.Core.List.{reverse}
use xarness.Prelude.Split.{split_on, join_on}
use xarness.Prelude.Strip.{text_eq, drop_prefix}

abbrev pub slash : ℕ
slash = 47

-- `path.split("/")`
abbrev pub parts : Text → List Text
parts path = split_on slash path

-- `Path(path).is_absolute()`
abbrev pub is_absolute : Text → Bool
is_absolute [] = false
is_absolute (c ∷ cs) = eqb c slash

abbrev pub is_dot : Text → Bool
is_dot part = text_eq part (codes ".")

abbrev pub is_parent : Text → Bool
is_parent part = text_eq part (codes "..")

-- The loop of `posixpath.normpath`: `kept` are the parts so far, the last first.
unfoldable pub norm_parts : Bool → List Text → List Text → List Text
norm_parts absolute kept [] = kept
norm_parts absolute kept (part ∷ rest) =
    let skipped = norm_parts absolute kept rest in
    let added = norm_parts absolute (part ∷ kept) rest in
    if not (nonempty part) || is_dot part
    then skipped
    else if not (is_parent part)
    then added
    else elim kept [
      | [] ↦ if absolute then skipped else added
      | top ∷ below ↦
          let popped = norm_parts absolute below rest in if is_parent top then added else popped
    ]

-- `posixpath.normpath`: two slashes at the start stay two, three or more become one.
abbrev pub first_slashes : Text → Text
first_slashes [] = []
first_slashes (c ∷ []) = if eqb c slash then codes "/" else []
first_slashes (c ∷ d ∷ []) =
    if not (eqb c slash) then [] else if eqb d slash then codes "//" else codes "/"
first_slashes (c ∷ d ∷ e ∷ rest) =
    if not (eqb c slash)
    then []
    else if eqb d slash && not (eqb e slash)
    then codes "//"
    else codes "/"

abbrev pub or_dot : Text → Text
or_dot [] = codes "."
or_dot (c ∷ cs) = c ∷ cs

unfoldable pub normpath : Text → Text
unfolding norm_parts
normpath path =
    or_dot (
      first_slashes path ++ join_on slash (reverse (norm_parts (is_absolute path) [] (parts path))))

abbrev pub refs_anchor : Text
refs_anchor = codes "/tmp/refs"

abbrev pub drop_slashes : Text → Text
drop_slashes [] = []
drop_slashes (c ∷ cs) = if eqb c slash then drop_slashes cs else c ∷ cs

-- `is_refs_path`
unfoldable pub is_refs_path : Text → Bool
unfolding normpath
is_refs_path path =
    let norm = normpath (slash ∷ drop_slashes path) in
    is_absolute path
    && (text_eq norm refs_anchor || is_some (drop_prefix (refs_anchor ++ slash ∷ []) norm))

-- `SandboxConfig.tool_root`
unfoldable pub tool_root : Bool → Text → Text
tool_root use_sandbox workspace = if use_sandbox then codes "/workspace" else workspace

-- `SandboxConfig.tool_path`, on the normal form of a path; the workspace is an absolute path other
-- than the root of the file system, in the form that `str` gives a `Path`.
unfoldable pub anchor : Bool → Text → Text → Text
unfolding tool_root
anchor use_sandbox workspace norm =
    if is_absolute norm
    then norm
    else if not use_sandbox && is_dot norm
    then workspace
    else tool_root use_sandbox workspace ++ slash ∷ norm

-- `SandboxConfig.tool_path`
unfoldable pub tool_path : Bool → Text → Text → Text
unfolding anchor normpath
tool_path use_sandbox workspace path =
    anchor use_sandbox workspace (if nonempty path then normpath path else codes ".")

-- `SandboxConfig.validate_relpath`: what is wrong with a path.
unfoldable pub validate_relpath : Text → Option Text
validate_relpath path =
    if is_absolute path
    then some
        (codes "path must be relative to the workspace, got absolute path '" ++ (path ++ codes "'"))
    else if any is_parent (parts path)
    then some (codes "path must not contain '..', got '" ++ (path ++ codes "'"))
    else none
