-- ===== src/Config/Preferences.antt =====
-- The configuration file itself: `save_preferences`, `_flatten_ui_defaults` and `_parse_sectioned` of
-- src/xarness/config.py. A file stands here as its sections with the types that the loader
-- asks for; the models and sandbox profiles stand as they are read. `json` and the file system are
-- not modelled.
pub mod Saved
use xarness.Prelude.{
  ℕ, Bool, true, false, Option, none, some, List, [], ◌∷◌, String, ◌==◌, Dict, lookup, insert, keys,
  filter, if◌then◌else◌,
}
use xarness.Config.{
  ProviderProfile, SandboxSettings, default_settings, PresetSettings, SectionedConfig, or_text,
}

-- A section that may be anything: no object, or an object; of its values only texts and null matter.
pub data Section : Type 0 where
  plain : Section
  fields : Dict (Option String) → Section

-- `theme` and `default_preset` are the same names at the top level, which the loader takes too.
pub record RawConfig : Type 0 where
  pub models : Dict ProviderProfile
  pub sandboxes : Dict SandboxSettings
  pub presets : Option (Dict (Dict (Option String)))
  pub ui : Option Section
  pub defaults : Option Section
  pub theme : Option String
  pub default_preset : Option String
  pub tool_output_limit : Option ℕ

-- `d.get(key)` where a null and a missing key are the same
abbrev pub get : String → Dict (Option String) → Option String
get key d = elim (lookup key d) [ none ↦ none | some value ↦ value ]

abbrev pub section_get : String → Option Section → Option String
section_get key none = none
section_get key (some plain) = none
section_get key (some (fields d)) = get key d

-- `data.setdefault(key, {})`; none is a section that is no object.
abbrev pub section_fields : Option Section → Option (Dict (Option String))
section_fields none = some []
section_fields (some plain) = none
section_fields (some (fields d)) = some d

abbrev pub or_empty {ℓ} : {V : Type ℓ} → Option (Dict V) → Dict V
or_empty none = []
or_empty (some d) = d

-- `_flatten_ui_defaults` for one field: the section's text wins when it is not empty.
unfoldable pub flatten : String → Option Section → Option String → String → String
flatten key section flat default =
    or_text (section_get key section) (elim flat [ none ↦ default | some text ↦ text ])

unfoldable pub read_preset : Dict (Option String) → PresetSettings
read_preset d = record { model = get "model" d; sandbox = get "sandbox" d }

unfoldable pub read_presets : Dict (Dict (Option String)) → Dict PresetSettings
unfolding read_preset
read_presets [] = []
read_presets ((name, d) ∷ rest) = (name, read_preset d) ∷ read_presets rest

-- `sandboxes.setdefault("default", SandboxSettings())`
abbrev pub with_default : Dict SandboxSettings → Dict SandboxSettings
with_default sandboxes = elim (lookup "default" sandboxes) [
  | none ↦ insert "default" default_settings sandboxes
  | some base ↦ sandboxes
]

-- `_parse_sectioned`
unfoldable pub parse_sectioned : RawConfig → SectionedConfig
unfolding flatten read_presets
parse_sectioned raw = record {
  models = raw.models;
  sandboxes = with_default raw.sandboxes;
  presets = read_presets (or_empty raw.presets);
  theme = flatten "theme" raw.ui raw.theme "ayu-darker";
  default_preset = flatten "preset" raw.defaults raw.default_preset "default";
  tool_output_limit = raw.tool_output_limit;
}

-- `data.setdefault("ui", {})["theme"] = default_theme`; none is the `TypeError`.
unfoldable pub save_theme : Option String → RawConfig → Option RawConfig
save_theme none raw = some raw
save_theme (some theme) raw = elim (section_fields raw.ui) [
  | none ↦ none
  | some d ↦ some (record raw { ui = some (fields (insert "theme" (some theme) d)) })
]

-- `isinstance(fields, dict) and fields.get("model") == default_profile`
abbrev pub carries : String → Option (Dict (Option String)) → Bool
carries profile none = false
carries profile (some d) = elim (get "model" d) [ none ↦ false | some model ↦ model == profile ]

-- `matching`: the names of the presets with the model
unfoldable pub matching : String → Dict (Dict (Option String)) → List String
matching profile presets = filter (λ name. carries profile (lookup name presets)) (keys presets)

-- `presets.setdefault(current, {})["model"] = default_profile`
unfoldable pub set_model :
    String → String → Dict (Dict (Option String)) → Dict (Dict (Option String))
set_model current profile presets =
    insert current (insert "model" (some profile) (or_empty (lookup current presets))) presets

-- The part of `save_preferences` on the profile, with the sections as objects.
unfoldable pub place_profile :
    String → Dict (Dict (Option String)) → Dict (Option String) → RawConfig → RawConfig
unfolding matching set_model
place_profile profile presets defaults raw = elim (matching profile presets) [
  | [] ↦ record raw {
    presets = some (set_model (or_text (get "preset" defaults) "default") profile presets);
    defaults = some (fields defaults);
  }
  | name ∷ more ↦ record raw {
    presets = some presets;
    defaults = some (fields (insert "preset" (some name) defaults));
  }
]

unfoldable pub save_profile : Option String → RawConfig → Option RawConfig
unfolding place_profile
save_profile none raw = some raw
save_profile (some profile) raw = elim (section_fields raw.defaults) [
  | none ↦ none
  | some defaults ↦ some (place_profile profile (or_empty raw.presets) defaults raw)
]

-- `save_preferences`, up to the write of the file
unfoldable pub save_preferences : RawConfig → Option String → Option String → Option RawConfig
unfolding save_theme save_profile
save_preferences raw theme profile = elim (save_theme theme raw) [
  | none ↦ none
  | some themed ↦ save_profile profile themed
]
