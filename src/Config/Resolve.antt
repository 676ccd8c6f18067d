-- ===== src/Config/Resolve.antt =====
-- How a sandbox profile is found and inherits (`resolve_sandbox` and `merged_over` of
-- src/xarness/config.py), field by field.
use xarness.Prelude.{
  ℕ, ◌≡◌, refl, ap, ◌∙◌, Bool, Option, none, some, List, String, Text, ◌==◌, ◌≢◌, Dict, lookup,
  contains, eq_iff, arith, Bool-cases, Option-cases, inl, inr, if◌then◌else◌,
}
use xarness.Config.{
  RefSpec, SandboxSettings, merged_over, SectionedConfig, or_text, sandbox_at, inherit,
  resolve_sandbox,
}

pub data Field : Type 0 where
  network gpu git_write refs filters sandboxed timeout tracking : Field

pub data Setting : Type 0 where
  flag : Bool → Setting
  specs : List RefSpec → Setting
  paths : List Text → Setting
  thousandths : ℕ → Setting

unfoldable pub field_name : Field → String
field_name network = "allow_network"
field_name gpu = "gpu_access"
field_name git_write = "allow_git_write"
field_name refs = "auto_include_refs"
field_name filters = "filter_list"
field_name sandboxed = "use_sandbox"
field_name timeout = "default_timeout"
field_name tracking = "enable_tracking"

unfoldable pub setting : Field → SandboxSettings → Setting
setting network s = flag s.allow_network
setting gpu s = flag s.gpu_access
setting git_write s = flag s.allow_git_write
setting refs s = specs s.auto_include_refs
setting filters s = paths s.filter_list
setting sandboxed s = flag s.use_sandbox
setting timeout s = thousandths s.default_timeout
setting tracking s = flag s.enable_tracking

-- The value of a field that a profile has under a name: its own where the name is "default", where
-- there is no default profile and where it sets the field, and otherwise that of the default profile.
unfoldable pub effective : Field → String → SandboxSettings → Option SandboxSettings → Setting
unfolding setting field_name
effective f key own none = setting f own
effective f key own (some base) =
    if key == "default"
    then setting f own
    else if contains (field_name f) own.fields_set
    then setting f own
    else setting f base

setting-merged_over :
    (f : Field) (own base : SandboxSettings)
    → setting f (merged_over own base)
      ≡ (if contains (field_name f) own.fields_set then setting f own else setting f base)
unfolding setting field_name merged_over
setting-merged_over network own base = ground arith
setting-merged_over gpu own base = ground arith
setting-merged_over git_write own base = ground arith
setting-merged_over refs own base = ground arith
setting-merged_over filters own base = ground arith
setting-merged_over sandboxed own base = ground arith
setting-merged_over timeout own base = ground arith
setting-merged_over tracking own base = ground arith

pub inherit-effective :
    (f : Field) (sandboxes : Dict SandboxSettings) (key : String) (own : SandboxSettings)
    → setting f (inherit sandboxes key own) ≡ effective f key own (lookup "default" sandboxes)
unfolding effective
inherit-effective f sandboxes key own = elim (Option-cases (lookup "default" sandboxes)) [
  | inl e ↦ rw (inherit, e) refl
  | inr (base, e) ↦ elim (Bool-cases (key == "default")) [
    | inl d ↦ rw (inherit, e, d) refl
    | inr d ↦ rw (inherit, e, d) (setting-merged_over f own base)
  ]
]

-- A sandbox profile that is there, under a name that is not empty, is found by it: a field that it does
-- not set has the value of the default profile, if there is one, and every other field its own.
resolve_sandbox-effective :
    (c : SectionedConfig) (key : String) (own : SandboxSettings)
    → key ≢ ""
    → lookup key c.sandboxes ≡ some own
    → (settings : SandboxSettings) × (resolve_sandbox c (some key) ≡ some (key, settings))
      × ((f : Field) → setting f settings ≡ effective f key own (lookup "default" c.sandboxes))
unfolding resolve_sandbox
resolve_sandbox-effective c key own h k =
    let named : or_text (some key) "default" ≡ key = ground (arith, eq_iff key "") in
    (
      inherit c.sandboxes key own,
      ap (sandbox_at c.sandboxes) named ∙ rw (sandbox_at, k) refl,
      λ f. inherit-effective f c.sandboxes key own,
    )
