-- ===== src/Config/Preferences/Saved.antt =====
-- What the loader reads of the file that `save_preferences` of src/xarness/config.py writes.
use xarness.Prelude.{
  ◌≡◌, refl, ap, subst, sym, ◌∙◌, Bool, true, false, Option, none, some, List, [], ◌∷◌, String,
  ◌==◌, ◌⊎◌, inl, inr, ◌≢◌, Dict, lookup, insert, keys, filter, lookup-insert, eq_iff, eq_refl,
  Bool-cases, Option-cases, arith,
}
use xarness.Config.{
  PresetSettings, SectionedConfig, or_text, default_preset_model, resolve_model, model_at,
}
use xarness.Config.Preferences.{
  RawConfig, Section, plain, fields, get, section_fields, or_empty, flatten, read_preset,
  read_presets, parse_sectioned, save_theme, carries, matching, set_model, place_profile,
  save_profile, save_preferences,
}

filter-first :
    (p : String → Bool) (x : String) (xs ys : List String) → filter p ys ≡ x ∷ xs → p x ≡ true
filter-first p x xs [] h = absurd (ground arith)
filter-first p x xs (y ∷ ys) h = ground (arith, filter-first p x xs ys)

read_preset_of : Option (Dict (Option String)) → Option PresetSettings
unfolding read_preset
read_preset_of none = none
read_preset_of (some d) = some (read_preset d)

lookup-read_presets :
    (name : String) (presets : Dict (Dict (Option String)))
    → lookup name (read_presets presets) ≡ read_preset_of (lookup name presets)
unfolding read_presets read_preset_of
lookup-read_presets name [] = refl
lookup-read_presets name ((j, d) ∷ rest) = elim (Bool-cases (j == name)) [
  | inl e ↦ rw e refl
  | inr e ↦ rw e (lookup-read_presets name rest)
]

-- A preset that carries a profile gives it.
preset_model : Option PresetSettings → Option String
preset_model none = none
preset_model (some preset) = preset.model

carries-model :
    (profile : String) (d : Option (Dict (Option String)))
    → carries profile d ≡ true
    → preset_model (read_preset_of d) ≡ some profile
unfolding preset_model read_preset_of read_preset
carries-model profile none h = absurd (ground arith)
carries-model profile (some d) h = elim (Option-cases (get "model" d)) [
  | inl e ↦ absurd (ground arith)
  | inr (m, e) ↦ rw e (ap some (ground (arith, eq_iff m profile)))
]

default_preset_model-carried :
    (c : SectionedConfig) (profile : String)
    → profile ≢ ""
    → preset_model (lookup c.default_preset c.presets) ≡ some profile
    → default_preset_model c ≡ some profile
unfolding default_preset_model preset_model
default_preset_model-carried c profile h k = ground (arith, eq_iff profile "")

get-insert :
    (key : String) (v : Option String) (d : Dict (Option String)) → get key (insert key v d) ≡ v
get-insert key v d = rw (get, lookup-insert key key v d, eq_refl key) refl

set_model-carries :
    (current profile : String) (presets : Dict (Dict (Option String)))
    → preset_model (read_preset_of (lookup current (set_model current profile presets)))
      ≡ some profile
unfolding set_model preset_model read_preset_of read_preset
set_model-carries current profile presets =
    let d = or_empty (lookup current presets) in
    rw (lookup-insert current current (insert "model" (some profile) d) presets, eq_refl current)
      (get-insert "model" (some profile) d)

matching-carries :
    (profile name : String) (rest : List String) (presets : Dict (Dict (Option String)))
    → matching profile presets ≡ name ∷ rest
    → carries profile (lookup name presets) ≡ true
unfolding matching
matching-carries profile name rest presets h =
    filter-first (λ j. carries profile (lookup j presets)) name rest (keys presets) h

or_text-named :
    (profile name fallback : String) (presets : Dict (Dict (Option String)))
    → carries profile (lookup name presets) ≡ true
    → lookup "" presets ≡ none
    → or_text (some name) fallback ≡ name
or_text-named profile name fallback presets h k = elim (Bool-cases (name == "")) [
  | inl e ↦
      let same : name ≡ "" = ground (arith, eq_iff name "") in
      let lost : carries profile (lookup "" presets) ≡ true =
        subst (λ n. carries profile (lookup n presets) ≡ true) same h in
      absurd (ground arith)
  | inr e ↦ rw e refl
]

List-cases : (xs : List String) → (xs ≡ []) ⊎ ((x : String) × (ys : List String) × (xs ≡ x ∷ ys))
List-cases [] = inl refl
List-cases (x ∷ xs) = inr (x, xs, refl)

section_fields-none : (s : Option Section) → section_fields s ≡ none → s ≡ some plain
section_fields-none none h = absurd (ground arith)
section_fields-none (some plain) h = refl
section_fields-none (some (fields d)) h = absurd (ground arith)

place_profile-default :
    (raw : RawConfig) (profile : String) (presets : Dict (Dict (Option String)))
    (defaults : Dict (Option String))
    → raw.default_preset ≡ none
    → lookup "" presets ≡ none
    → preset_model (
        lookup
          (parse_sectioned (place_profile profile presets defaults raw)).default_preset
          (parse_sectioned (place_profile profile presets defaults raw)).presets)
      ≡ some profile
unfolding place_profile parse_sectioned flatten
place_profile-default raw profile presets defaults flat named =
    elim (List-cases (matching profile presets)) [
      | inl e ↦
          rw
            (
              place_profile,
              e,
              flat,
              lookup-read_presets (or_text (get "preset" defaults) "default")
                  (set_model (or_text (get "preset" defaults) "default") profile presets),
            )
            (set_model-carries (or_text (get "preset" defaults) "default") profile presets)
      | inr (name, rest, e) ↦
          let h = matching-carries profile name rest presets e in
          rw
            (
              place_profile,
              e,
              flat,
              get-insert "preset" (some name) defaults,
              or_text-named profile name "default" presets h named,
              lookup-read_presets name presets,
            )
            (carries-model profile (lookup name presets) h)
    ]

-- What the theme's part leaves.
Themed : RawConfig → Option String → RawConfig → Type 0
Themed raw theme themed =
    (themed.default_preset ≡ raw.default_preset)
    × (themed.presets ≡ raw.presets)
    × (themed.defaults ≡ raw.defaults)
    × (themed.models ≡ raw.models)
    × ((parse_sectioned themed).theme ≡ or_text theme (parse_sectioned raw).theme)

save_theme-Themed :
    (raw : RawConfig) (theme : Option String)
    → raw.ui ≢ some plain
    → theme ≢ some ""
    → (themed : RawConfig) × (save_theme theme raw ≡ some themed) × Themed raw theme themed
unfolding save_theme Themed parse_sectioned
save_theme-Themed raw none h k = (raw, refl, (refl, refl, refl, refl, refl))
save_theme-Themed raw (some t) h k =
    let named : (t == "") ≡ false = ground (arith, eq_iff t "") in
    elim (Option-cases (section_fields raw.ui)) [
      | inl e ↦ absurd (h (section_fields-none raw.ui e))
      | inr (d, e) ↦ (
        record raw { ui = some (fields (insert "theme" (some t) d)) },
        rw (save_theme, e) refl,
        (refl, refl, refl, refl, rw (flatten, get-insert "theme" (some t) d, named) refl),
      )
    ]

place_profile-theme :
    (raw : RawConfig) (profile : String) (presets : Dict (Dict (Option String)))
    (defaults : Dict (Option String))
    → ((parse_sectioned (place_profile profile presets defaults raw)).theme
        ≡ (parse_sectioned raw).theme)
      × ((parse_sectioned (place_profile profile presets defaults raw)).models ≡ raw.models)
unfolding place_profile parse_sectioned
place_profile-theme raw profile presets defaults = elim (List-cases (matching profile presets)) [
  | inl e ↦ rw (place_profile, e) (refl, refl)
  | inr (name, rest, e) ↦ rw (place_profile, e) (refl, refl)
]

save_profile-reads :
    (raw : RawConfig) (profile : String)
    → raw.defaults ≢ some plain
    → raw.default_preset ≡ none
    → lookup "" (or_empty raw.presets) ≡ none
    → profile ≢ ""
    → (saved : RawConfig) × (save_profile (some profile) raw ≡ some saved)
      × (resolve_model (parse_sectioned saved) none ≡ model_at raw.models (some profile))
      × ((parse_sectioned saved).theme ≡ (parse_sectioned raw).theme)
unfolding save_profile resolve_model
save_profile-reads raw profile d flat named h = elim (Option-cases (section_fields raw.defaults)) [
  | inl e ↦ absurd (d (section_fields-none raw.defaults e))
  | inr (defaults, e) ↦
      let presets = or_empty raw.presets in
      let kept = place_profile-theme raw profile presets defaults in
      let saved = place_profile profile presets defaults raw in
      let found : default_preset_model (parse_sectioned saved) ≡ some profile =
        default_preset_model-carried (parse_sectioned saved) profile h
          (place_profile-default raw profile presets defaults flat named) in
      (saved, rw (save_profile, e) refl, rw (found, kept.1) refl, kept.0)
]

-- Where the sections are objects, no preset is named by the empty text and the file has no
-- `default_preset` at its top level, preferences that are not empty are saved, and the loader then finds
-- the saved profile as the default model, if it is one of the models, and the saved theme.
pub save_preferences-read_back :
    (raw : RawConfig) (theme : Option String) (profile : String)
    → raw.ui ≢ some plain
    → raw.defaults ≢ some plain
    → raw.default_preset ≡ none
    → lookup "" (or_empty raw.presets) ≡ none
    → theme ≢ some ""
    → profile ≢ ""
    → (saved : RawConfig) × (save_preferences raw theme (some profile) ≡ some saved)
      × (resolve_model (parse_sectioned saved) none ≡ model_at raw.models (some profile))
      × ((parse_sectioned saved).theme ≡ or_text theme (parse_sectioned raw).theme)
unfolding save_preferences save_profile resolve_model Themed
save_preferences-read_back raw theme profile u d flat named t h =
    let (themed, e, (same_default, same_presets, same_defaults, same_models, shown)) =
      save_theme-Themed raw theme u t in
    let (saved, f, reads, keeps) =
      save_profile-reads themed profile (λ p. d (sym same_defaults ∙ p)) (same_default ∙ flat)
        (ap (λ p. lookup "" (or_empty p)) same_presets ∙ named) h in
    (
      saved,
      rw (save_preferences, e) f,
      reads ∙ ap (λ m. model_at m (some profile)) same_models,
      keeps ∙ shown,
    )
