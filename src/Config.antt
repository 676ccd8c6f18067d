-- ===== src/Config.antt =====
-- The configuration of src/xarness/config.py: the profiles as the parser leaves them, and how a
-- model and a sandbox profile are found by name. A float is a number of thousandths; a
-- `ConfigError` is none, its text left out.
pub mod Checks
pub mod Preferences
pub mod Resolve
use xarness.Prelude.{
  ℕ, Bool, true, false, not, ◌&&◌, ◌||◌, Option, none, some, List, [], ◌∷◌, ◌++◌, String, Text,
  ◌==◌, Dict, lookup, keys, contains, is_some, if◌then◌else◌,
}

pub data CotStrength : Type 0 where
  off low medium high : CotStrength

-- `ProviderProfile`, less `provider`, which is only sent on.
pub record ProviderProfile : Type 0 where
  pub base_url : Text
  pub api_key_env : Option Text
  pub model_id : String
  pub name : Option String
  pub display_name : Option String
  pub max_context : ℕ
  pub cot_strength : CotStrength
  pub keep_reasoning : Bool
  pub supports_vision : Bool
  pub auto_compact : Bool
  pub auto_compact_threshold : ℕ

pub record RefSpec : Type 0 where
  pub path : Text
  pub mount : Option Text
  pub read_only : Bool

-- `SandboxSettings`, with the names of the fields that were set (`model_fields_set`).
pub record SandboxSettings : Type 0 where
  pub allow_network : Bool
  pub gpu_access : Bool
  pub allow_git_write : Bool
  pub auto_include_refs : List RefSpec
  pub filter_list : List Text
  pub use_sandbox : Bool
  pub default_timeout : ℕ
  pub enable_tracking : Bool
  pub fields_set : List String

-- `SandboxSettings()`
abbrev pub default_settings : SandboxSettings
default_settings = record {
  allow_network = true;
  gpu_access = false;
  allow_git_write = false;
  auto_include_refs = [];
  filter_list = [];
  use_sandbox = true;
  default_timeout = 120000;
  enable_tracking = true;
  fields_set = [];
}

abbrev pick {ℓ} :
    {A : Type ℓ} → String → SandboxSettings → (SandboxSettings → A) → SandboxSettings → A
pick name own f base = if contains name own.fields_set then f own else f base

-- `self.merged_over(base)`, its loop written out over the fields.
unfoldable pub merged_over : SandboxSettings → SandboxSettings → SandboxSettings
merged_over self base = record {
  allow_network = pick "allow_network" self (λ s. s.allow_network) base;
  gpu_access = pick "gpu_access" self (λ s. s.gpu_access) base;
  allow_git_write = pick "allow_git_write" self (λ s. s.allow_git_write) base;
  auto_include_refs = pick "auto_include_refs" self (λ s. s.auto_include_refs) base;
  filter_list = pick "filter_list" self (λ s. s.filter_list) base;
  use_sandbox = pick "use_sandbox" self (λ s. s.use_sandbox) base;
  default_timeout = pick "default_timeout" self (λ s. s.default_timeout) base;
  enable_tracking = pick "enable_tracking" self (λ s. s.enable_tracking) base;
  fields_set = base.fields_set ++ self.fields_set;
}

pub record PresetSettings : Type 0 where
  pub model : Option String
  pub sandbox : Option String

-- `SectionedConfig`
pub record SectionedConfig : Type 0 where
  pub models : Dict ProviderProfile
  pub sandboxes : Dict SandboxSettings
  pub presets : Dict PresetSettings
  pub theme : String
  pub default_preset : String
  pub tool_output_limit : Option ℕ

-- `name or other` of a text that may be missing
abbrev pub or_else : Option String → Option String → Option String
or_else none other = other
or_else (some name) other = if name == "" then other else some name

abbrev pub or_text : Option String → String → String
or_text none other = other
or_text (some name) other = if name == "" then other else name

-- `resolve_sandbox` of a key that is there
abbrev pub inherit : Dict SandboxSettings → String → SandboxSettings → SandboxSettings
inherit sandboxes key settings = elim (lookup "default" sandboxes) [
  | none ↦ settings
  | some base ↦ if not (key == "default") then merged_over settings base else settings
]

-- `resolve_sandbox` of a key
unfoldable pub sandbox_at : Dict SandboxSettings → String → Option (String × SandboxSettings)
unfolding merged_over
sandbox_at sandboxes key = elim (lookup key sandboxes) [
  | none ↦ none
  | some settings ↦ some (key, inherit sandboxes key settings)
]

-- `resolve_sandbox`
unfoldable pub resolve_sandbox : SectionedConfig → Option String → Option (String × SandboxSettings)
unfolding sandbox_at
resolve_sandbox c name = sandbox_at c.sandboxes (or_text name "default")

-- The model when only one is defined.
abbrev pub only_model : Dict ProviderProfile → Option String
only_model ((name, profile) ∷ []) = some name
only_model _ = none

-- `default_preset_model`
unfoldable pub default_preset_model : SectionedConfig → Option String
default_preset_model c = elim (lookup c.default_preset c.presets) [
  | none ↦ only_model c.models
  | some preset ↦ or_else preset.model (only_model c.models)
]

-- `default_preset_sandbox`
unfoldable pub default_preset_sandbox : SectionedConfig → Option String
default_preset_sandbox c = elim (lookup c.default_preset c.presets) [
  | none ↦ none
  | some preset ↦ preset.sandbox
]

-- `key in self.models` and the profile, for a key that may be missing
abbrev pub model_at : Dict ProviderProfile → Option String → Option (String × ProviderProfile)
model_at models none = none
model_at models (some key) = elim (lookup key models) [
  | none ↦ none
  | some profile ↦ some (key, profile)
]

-- `resolve_model`
unfoldable pub resolve_model : SectionedConfig → Option String → Option (String × ProviderProfile)
unfolding default_preset_model
resolve_model c name = model_at c.models (or_else name (default_preset_model c))

-- `resolve_api_key`: a key that is not there is an error, the inner none, unless no key is needed.
abbrev pub key_found : Option Text → Option (Option Text)
key_found none = none
key_found (some []) = none
key_found (some (c ∷ cs)) = some (some (c ∷ cs))

unfoldable pub resolve_api_key : ProviderProfile → (Text → Option Text) → Option (Option Text)
resolve_api_key profile env = elim profile.api_key_env [
  | none ↦ some none
  | some name ↦ key_found (env name)
]
