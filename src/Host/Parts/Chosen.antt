-- ===== src/Host/Parts/Chosen.antt =====
-- What a session takes of the configuration (`Host._build_parts` of src/xarness/host.py).
use xarness.Prelude.{
  ◌≡◌, ◌&&◌, Bool, false, is_some, Option, none, some, List, [], ◌∷◌, String, Text, ◌==◌, lookup,
  if◌then◌else◌,
}
use xarness.Config.{
  SandboxSettings, SectionedConfig, or_else, or_text, default_preset_model, resolve_api_key,
}
use xarness.Config.Resolve.{
  Field, network, gpu, sandboxed, tracking, Setting, flag, setting, effective,
}
use xarness.Host.Parts.{
  SessionChoice, Meta, workspace_last_used, CreateSessionRequest, preset_model, preset_sandbox,
  model_name,
}

-- The first name of some that is there and not empty.
unfoldable pub first_named : List (Option String) → Option String
first_named [] = none
first_named (none ∷ names) = first_named names
first_named (some name ∷ names) = if name == "" then first_named names else some name

-- A flag of the request, over what there is without it.
abbrev pub asked : Option Bool → Setting → Setting
asked none old = old
asked (some b) old = flag b

unfoldable pub requested : Field → CreateSessionRequest → Setting → Setting
requested network request old = asked request.network old
requested gpu request old = asked request.gpu old
requested sandboxed request old = asked request.use_sandbox old
requested tracking request old = asked request.enable_tracking old
requested _ request old = old

module _ (c : SectionedConfig) (request : CreateSessionRequest) (metas : List Meta) where
  unfoldable pub preset_name : String
  preset_name = or_text request.preset c.default_preset

  unfoldable pub chosen_model : Option String
  unfolding preset_name first_named
  chosen_model =
      or_else
        (first_named (
          request.model
          ∷ preset_model (lookup preset_name c.presets)
          ∷ (workspace_last_used metas).0
          ∷ []))
        (default_preset_model c)

  unfoldable pub chosen_sandbox : String
  unfolding preset_name first_named
  chosen_sandbox =
      or_text
        (first_named (
          request.sandbox
          ∷ preset_sandbox (lookup preset_name c.presets)
          ∷ (workspace_last_used metas).1
          ∷ []))
        "default"

  -- The name that the sandbox profile is kept under: with saved settings, the saved one.
  unfoldable pub kept_key : Option String → Option SandboxSettings → String
  unfolding chosen_sandbox first_named
  kept_key saved_name none = chosen_sandbox
  kept_key saved_name (some saved) = elim (first_named (saved_name ∷ [])) [
    | none ↦ chosen_sandbox
    | some name ↦ name
  ]

  -- A field of the settings, before the request's flags: the saved one, or that of the profile.
  unfoldable pub base_setting : Field → SandboxSettings → Option SandboxSettings → Setting
  unfolding chosen_sandbox effective
  base_setting f own none = effective f chosen_sandbox own (lookup "default" c.sandboxes)
  base_setting f own (some saved) = setting f saved

  -- The model is defined, the sandbox profile is, and a key that the model needs is there.
  unfoldable pub usable : (Text → Option Text) → Bool
  unfolding chosen_model chosen_sandbox
  usable env = elim chosen_model [
    | none ↦ false
    | some name ↦ elim (lookup name c.models) [
      | none ↦ false
      | some profile ↦
          is_some (lookup chosen_sandbox c.sandboxes) && is_some (resolve_api_key profile env)
    ]
  ]

  module _ (saved_name : Option String) (saved_settings : Option SandboxSettings)
      (env : Text → Option Text) where
    -- What a session takes.
    pub record Takes (choice : SessionChoice) : Type 0 where
      pub model_name : chosen_model ≡ some choice.profile_name
      pub model : lookup choice.profile_name c.models ≡ some choice.profile
      pub key : resolve_api_key choice.profile env ≡ some choice.api_key
      pub kept : choice.sandbox_key ≡ kept_key saved_name saved_settings
      pub own : SandboxSettings
      pub profile : lookup chosen_sandbox c.sandboxes ≡ some own
      pub settings :
          (f : Field)
          → setting f choice.settings ≡ requested f request (base_setting f own saved_settings)
