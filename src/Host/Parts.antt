-- ===== src/Host/Parts.antt =====
-- How a session gets its model and its sandbox profile: `_workspace_last_used` and the part of
-- `_build_parts` of src/xarness/host.py that reads the configuration. The workspace itself, the
-- tracking and the sandbox's start are not part of it; the text of an error is left out.
pub mod Chosen
pub mod Latest
use xarness.Prelude.{
  ℕ, Bool, true, false, not, ◌&&◌, ◌||◌, Option, none, some, List, [], ◌∷◌, ◌++◌, String, Text,
  ◌==◌, Dict, lookup, ltb, eqb, is_some, if◌then◌else◌,
}
use xarness.Config.{
  ProviderProfile, PresetSettings, SandboxSettings, SectionedConfig, or_else, or_text,
  resolve_model, resolve_sandbox, resolve_api_key,
}

-- One saved session's small block. `same` says whether its directory is the workspace; it is none
-- where no directory is saved or the directory cannot be resolved.
pub record Meta : Type 0 where
  pub same : Option Bool
  pub profile : Option String
  pub sandbox_name : Option String
  pub updated_at : Text

-- `a > b` on texts
abbrev pub text_ltb : Text → Text → Bool
text_ltb [] [] = false
text_ltb [] (c ∷ cs) = true
text_ltb (b ∷ bs) [] = false
text_ltb (b ∷ bs) (c ∷ cs) = ltb b c || (eqb b c && text_ltb bs cs)

-- The test on the best one so far, `best is None or stamp > best[2]`.
abbrev pub newer : Option Meta → Meta → Bool
newer none meta = true
newer (some best) meta = text_ltb best.updated_at meta.updated_at

abbrev pub is_same : Option Bool → Bool
is_same none = false
is_same (some same) = same

-- The loop over the saved sessions.
unfoldable pub latest : Option Meta → List Meta → Option Meta
latest best [] = best
latest best (meta ∷ metas) =
    let takes = latest (some meta) metas in
    let keeps = latest best metas in if is_same meta.same && newer best meta then takes else keeps

-- `_workspace_last_used`
unfoldable pub workspace_last_used : List Meta → Option String × Option String
unfolding latest
workspace_last_used metas = elim (latest none metas) [
  | none ↦ (none, none)
  | some best ↦ (best.profile, best.sandbox_name)
]

-- What `_build_parts` reads of `CreateSessionRequest`.
pub record CreateSessionRequest : Type 0 where
  pub model : Option String
  pub sandbox : Option String
  pub preset : Option String
  pub use_sandbox : Option Bool
  pub network : Option Bool
  pub gpu : Option Bool
  pub enable_tracking : Option Bool

abbrev pub preset_model : Option PresetSettings → Option String
preset_model none = none
preset_model (some preset) = preset.model

abbrev pub preset_sandbox : Option PresetSettings → Option String
preset_sandbox none = none
preset_sandbox (some preset) = preset.sandbox

abbrev pub flag_or : Option Bool → Bool → Bool
flag_or none old = old
flag_or (some flag) old = flag

abbrev pub name_if : Option Bool → String → List String
name_if none name = []
name_if (some flag) name = name ∷ []

-- `settings.model_copy(update=overrides)`
unfoldable pub override : CreateSessionRequest → SandboxSettings → SandboxSettings
override request settings = record settings {
  allow_network = flag_or request.network settings.allow_network;
  gpu_access = flag_or request.gpu settings.gpu_access;
  use_sandbox = flag_or request.use_sandbox settings.use_sandbox;
  enable_tracking = flag_or request.enable_tracking settings.enable_tracking;
  fields_set =
      settings.fields_set
      ++ (name_if request.network "allow_network"
          ++ (name_if request.gpu "gpu_access"
              ++ (name_if request.use_sandbox "use_sandbox"
                  ++ name_if request.enable_tracking "enable_tracking")));
}

pub record SessionChoice : Type 0 where
  pub profile_name : String
  pub profile : ProviderProfile
  pub sandbox_key : String
  pub settings : SandboxSettings
  pub api_key : Option Text

-- The settings that a session was saved with win over those that are resolved.
abbrev pub saved_or :
    Option String → Option SandboxSettings → String × SandboxSettings → String × SandboxSettings
saved_or name none resolved = resolved
saved_or name (some saved) resolved = (or_text name resolved.0, saved)

abbrev pub finish_choice :
    CreateSessionRequest
    → (Text → Option Text)
    → String × ProviderProfile
    → String × SandboxSettings
    → Option SessionChoice
finish_choice request env model sandbox = elim (resolve_api_key model.1 env) [
  | none ↦ none
  | some key ↦ some (record {
    profile_name = model.0;
    profile = model.1;
    sandbox_key = sandbox.0;
    settings = override request sandbox.1;
    api_key = key;
  })
]

-- The names that `_build_parts` resolves.
unfoldable pub model_name : SectionedConfig → CreateSessionRequest → List Meta → Option String
unfolding workspace_last_used
model_name c request metas = or_else request.model (
    or_else (preset_model (lookup (or_text request.preset c.default_preset) c.presets))
      (workspace_last_used metas).0)

unfoldable pub sandbox_name : SectionedConfig → CreateSessionRequest → List Meta → Option String
unfolding workspace_last_used
sandbox_name c request metas = or_else request.sandbox (
    or_else (preset_sandbox (lookup (or_text request.preset c.default_preset) c.presets))
      (workspace_last_used metas).1)

-- `_build_parts`; none is a `SessionError`.
unfoldable pub choose_parts :
    SectionedConfig
    → CreateSessionRequest
    → List Meta
    → Option String
    → Option SandboxSettings
    → (Text → Option Text)
    → Option SessionChoice
unfolding model_name sandbox_name override
choose_parts c request metas saved_name saved_settings env =
    elim (resolve_model c (model_name c request metas)) [
      | none ↦ none
      | some model ↦ elim (resolve_sandbox c (sandbox_name c request metas)) [
        | none ↦ none
        | some sandbox ↦
            finish_choice request env model (saved_or saved_name saved_settings sandbox)
      ]
    ]
