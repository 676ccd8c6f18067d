-- ===== src/Sandbox/Argv/Seen.antt =====
-- What a sandbox shows at a path: of the mounts that cover it the last one counts, as bubblewrap
-- documents it. `build_argv` of src/xarness/sandbox.py relies on it.
use xarness.Prelude.{
  ◌≡◌, refl, Bool, true, false, not, ◌||◌, Option, none, some, List, [], ◌∷◌, ◌++◌, Text, any,
  arith, if◌then◌else◌,
}
use xarness.Prelude.Strip.{text_eq}
use xarness.Sandbox.Paths.{is_absolute, normpath, tool_root}
use xarness.Sandbox.Refs.{ContainerRef, Refs}
use xarness.Sandbox.Argv.{
  Arg, ro_bind, bind, dev_bind, tmpfs, proc, dev, SandboxConfig, under, covers, workspace_anchor,
}
use xarness.Sandbox.Argv.Binds.{bind_one}

-- Whether an option mounts something over a path.
unfoldable pub mounts_over : Text → Arg → Bool
unfolding covers
mounts_over path (ro_bind source target) = covers target path
mounts_over path (bind source target) = covers target path
mounts_over path (dev_bind source target) = covers target path
mounts_over path (tmpfs target) = covers target path
mounts_over path (proc target) = covers target path
mounts_over path (dev target) = covers target path
mounts_over path _ = false

-- The last option that mounts something over a path.
unfoldable pub seen : Text → List Arg → Option Arg
unfolding mounts_over
seen path [] = none
seen path (arg ∷ args) = elim (seen path args) [
  | some later ↦ some later
  | none ↦ if mounts_over path arg then some arg else none
]

pub seen-none :
    (path : Text) (args : List Arg) → any (mounts_over path) args ≡ false → seen path args ≡ none
unfolding seen
seen-none path [] h = refl
seen-none path (arg ∷ args) h = ground (arith, seen-none path args)

-- Whether a reference may be mounted over a path: its target covers it, or is not in normal form,
-- so that it may be another path than its text says. A mount that is not absolute is in the workspace.
unfoldable pub ref_target : ContainerRef → Text
ref_target ref = if is_absolute ref.mount then ref.mount else under workspace_anchor ref.mount

unfoldable pub may_cover : Text → Text → Bool
unfolding covers normpath
may_cover target path = not (text_eq (normpath target) target) || covers target path

unfoldable pub shadowed : Text → Refs → Bool
unfolding ref_target may_cover
shadowed path [] = false
shadowed path ((alias, ref) ∷ refs) = may_cover (ref_target ref) path || shadowed path refs

pub target_absolute :
    (ref : ContainerRef) → is_absolute ref.mount ≡ true → ref_target ref ≡ ref.mount
unfolding ref_target
target_absolute ref e = rw e refl

pub target_relative :
    (ref : ContainerRef)
    → is_absolute ref.mount ≡ false
    → ref_target ref ≡ under workspace_anchor ref.mount
unfolding ref_target
target_relative ref e = rw e refl

pub target_in_workspace :
    (c : SandboxConfig) (ref : ContainerRef)
    → c.use_sandbox ≡ true
    → under (tool_root c.use_sandbox c.workspace) ref.mount ≡ under workspace_anchor ref.mount
unfolding tool_root
target_in_workspace c ref u = rw u refl

pub neither : (a b : Bool) → (a || b) ≡ false → (a ≡ false) × (b ≡ false)
neither true b h = absurd (ground arith)
neither false b h = (refl, h)

pub not_covered : (target path : Text) → may_cover target path ≡ false → covers target path ≡ false
unfolding may_cover
not_covered target path h =
    (neither (not (text_eq (normpath target) target)) (covers target path) h).1

pub bind_one-over :
    (read_only : Bool) (source target path : Text)
    → covers target path ≡ false
    → mounts_over path (bind_one read_only source target) ≡ false
unfolding mounts_over
bind_one-over true source target path h = h
bind_one-over false source target path h = h

pub seen-later :
    (path : Text) (xs ys : List Arg) (arg : Arg)
    → seen path ys ≡ some arg
    → seen path (xs ++ ys) ≡ some arg
unfolding seen
seen-later path [] ys arg h = h
seen-later path (x ∷ xs) ys arg h = rw (seen-later path xs ys arg h) refl

pub seen-earlier :
    (path : Text) (xs ys : List Arg)
    → any (mounts_over path) ys ≡ false
    → seen path (xs ++ ys) ≡ seen path xs
unfolding seen
seen-earlier path [] ys h = seen-none path ys h
seen-earlier path (x ∷ xs) ys h = rw (seen-earlier path xs ys h) refl
