-- ===== src/Tests/Configuring.antt =====
-- The theorems on config.py, and on what host.py takes of the configuration, at concrete inputs.
use xarness.Prelude.{
  ◌≡◌, ◌⊎◌, refl, true, false, none, some, List, [], ◌∷◌, codes, any, arith, eq_iff,
}
use xarness.Config.{
  ProviderProfile, medium, SandboxSettings, default_settings, SectionedConfig, or_text, model_at,
  resolve_model, resolve_api_key,
}
use xarness.Config.Preferences.{RawConfig, parse_sectioned, save_preferences}
use xarness.Config.Preferences.Saved.{save_preferences-read_back}
use xarness.Config.Checks.{validate_filter_list, validate_mount}
use xarness.Host.Parts.{Meta, CreateSessionRequest, workspace_last_used, is_same}
use xarness.Host.Parts.Chosen.{usable}
use xarness.Host.Parts.Latest.{IsOf, newer_than, workspace_last_used-newest}

abbrev profile : ProviderProfile
profile = record {
  base_url = codes "http://localhost:1";
  api_key_env = none;
  model_id = "m";
  name = some "local";
  display_name = none;
  max_context = 128000;
  cot_strength = medium;
  keep_reasoning = true;
  supports_vision = false;
  auto_compact = false;
  auto_compact_threshold = 900;
}

-- Two models, no sandbox profile, and one preset that is not the default one.
abbrev raw : RawConfig
raw = record {
  models = ("local", profile) ∷ ("other", profile) ∷ [];
  sandboxes = [];
  presets = some (("work", ("model", some "other") ∷ []) ∷ []);
  ui = none;
  defaults = none;
  theme = none;
  default_preset = none;
  tool_output_limit = none;
}

save_preferences-read_back_example :
    (saved : RawConfig) × (save_preferences raw (some "dark") (some "local") ≡ some saved)
    × (resolve_model (parse_sectioned saved) none
        ≡ model_at (("local", profile) ∷ ("other", profile) ∷ []) (some "local"))
    × ((parse_sectioned saved).theme ≡ or_text (some "dark") (parse_sectioned raw).theme)
save_preferences-read_back_example =
    save_preferences-read_back raw (some "dark") "local" (λ e. ground arith) (λ e. ground arith)
      refl refl (λ e. ground (arith, eq_iff "dark" "")) (λ e. ground (arith, eq_iff "local" ""))

-- A profile that forbids the network, over a default profile with tracking off.
abbrev own : SandboxSettings
own = record default_settings { allow_network = false; fields_set = "allow_network" ∷ [] }

abbrev base : SandboxSettings
base = record default_settings { enable_tracking = false; fields_set = "enable_tracking" ∷ [] }

abbrev sectioned : SectionedConfig
sectioned = record {
  models = ("local", profile) ∷ ("other", profile) ∷ [];
  sandboxes = ("default", base) ∷ ("closed", own) ∷ [];
  presets = ("work", record { model = some "other"; sandbox = none }) ∷ [];
  theme = "ayu-darker";
  default_preset = "default";
  tool_output_limit = none;
}

abbrev metas : List Meta
metas =
    record {
      same = some true;
      profile = some "local";
      sandbox_name = none;
      updated_at = codes "2026-01-01";
    }
    ∷ record {
      same = some false;
      profile = some "other";
      sandbox_name = none;
      updated_at = codes "2026-03-01";
    }
    ∷ record {
      same = some true;
      profile = some "other";
      sandbox_name = some "closed";
      updated_at = codes "2026-02-01";
    }
    ∷ []

workspace_last_used-newest_example :
    ((any (λ m. is_same m.same) metas ≡ false) × (workspace_last_used metas ≡ (none, none)))
    ⊎ ((m : Meta) × IsOf metas m
        × (any (newer_than m) metas ≡ false)
        × (workspace_last_used metas ≡ (m.profile, m.sandbox_name)))
workspace_last_used-newest_example = workspace_last_used-newest metas

last_used_run : workspace_last_used metas ≡ (some "other", some "closed")
unfolding workspace_last_used
last_used_run = refl

-- A request that names the preset of the other model and opens the network again.
abbrev request : CreateSessionRequest
request = record {
  model = none;
  sandbox = none;
  preset = some "work";
  use_sandbox = none;
  network = some true;
  gpu = none;
  enable_tracking = none;
}

request-usable : usable sectioned request metas (λ name. none) ≡ true
unfolding usable resolve_api_key workspace_last_used
request-usable = refl

-- An entry with a space before it passes as it is.
filter_list-space : validate_filter_list (codes " .env" ∷ []) ≡ some (codes " .env" ∷ [])
unfolding validate_filter_list
filter_list-space = refl

-- The same mount passes the configuration's check, and `.github` does not.
mount-dotted : validate_mount (some (codes "./.git")) ≡ some (some (codes "./.git"))
unfolding validate_mount
mount-dotted = refl

mount-github : validate_mount (some (codes ".github")) ≡ none
unfolding validate_mount
mount-github = refl
