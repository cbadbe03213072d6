-- ===== src/Reporter/Sampling/Settings/Expiry.antt =====
-- The settings map as a function of its keys: updates, removal and expiry.
use appoptics_apm_go.Base.{
  ℕ, ◌≡◌, ◌↔◌, refl, ap, sym, ◌∙◌, true, false, [], ◌∷◌, Option, none, some, arith, Bool-cases, inl,
  inr, if◌then◌else◌, if_both,
}
use appoptics_apm_go.Base.Text.{text_eq_iff}
use appoptics_apm_go.Reporter.Sampling.Flags.{SettingType}
use appoptics_apm_go.Reporter.Sampling.Flags.SettingType.{type_default, type_layer, type_other}
use appoptics_apm_go.Reporter.Sampling.Settings.{
  OboeSettings, OboeSettingKey, SettingsMap, setting_type_eq, key_eq, lookup, delete, store,
}
use appoptics_apm_go.Reporter.Sampling.Settings.Update.{expired, check_settings_timeout}

setting_type_eq_iff : (a b : SettingType) → (setting_type_eq a b ≡ true) ↔ (a ≡ b)
setting_type_eq_iff type_default type_default = ground arith
setting_type_eq_iff type_layer type_layer = ground arith
setting_type_eq_iff (type_other m) (type_other n) = ground arith
setting_type_eq_iff type_default type_layer = ground arith
setting_type_eq_iff type_default (type_other n) = ground arith
setting_type_eq_iff type_layer type_default = ground arith
setting_type_eq_iff type_layer (type_other n) = ground arith
setting_type_eq_iff (type_other m) type_default = ground arith
setting_type_eq_iff (type_other m) type_layer = ground arith

key_eq-eq : (a b : OboeSettingKey) → key_eq a b ≡ true → a ≡ b
key_eq-eq a b e = ground (arith, setting_type_eq_iff a.s_type b.s_type, text_eq_iff a.layer b.layer)

key_eq_refl : (a : OboeSettingKey) → key_eq a a ≡ true
key_eq_refl a = ground (arith, setting_type_eq_iff a.s_type a.s_type, text_eq_iff a.layer a.layer)

-- Each key stands in the map once.
unfoldable pub IsUnique : SettingsMap → Type 0
IsUnique [] = Unit
IsUnique (entry ∷ rest) = (lookup entry.0 rest ≡ none) × IsUnique rest

-- What a lookup finds if it does not find expired settings.
unfoldable pub unexpired : ℕ → Option OboeSettings → Option OboeSettings
unexpired now none = none
unexpired now (some s) = if expired now s then none else some s

lookup-delete_other :
    (key key2 : OboeSettingKey) (m : SettingsMap)
    → key_eq key2 key ≡ false
    → lookup key2 (delete key m) ≡ lookup key2 m
unfolding lookup delete
lookup-delete_other key key2 [] other = refl
lookup-delete_other key key2 (entry ∷ rest) other = elim (Bool-cases (key_eq key entry.0)) [
  | inl same ↦
      rw (same, ap (key_eq key2) (sym (key_eq-eq key entry.0 same)) ∙ other)
        (lookup-delete_other key key2 rest other)
  | inr apart ↦ rw apart (elim (Bool-cases (key_eq key2 entry.0)) [
    | inl hit ↦ rw hit refl
    | inr miss ↦ rw miss (lookup-delete_other key key2 rest other)
  ])
]

lookup-delete : (key : OboeSettingKey) (m : SettingsMap) → lookup key (delete key m) ≡ none
unfolding lookup delete
lookup-delete key [] = refl
lookup-delete key (entry ∷ rest) = ground (arith, lookup-delete key rest)

lookup-delete_absent :
    (key key2 : OboeSettingKey) (m : SettingsMap)
    → lookup key2 m ≡ none
    → lookup key2 (delete key m) ≡ none
lookup-delete_absent key key2 m absent = elim (Bool-cases (key_eq key2 key)) [
  | inl same ↦ ap (λ k. lookup k (delete key m)) (key_eq-eq key2 key same) ∙ lookup-delete key m
  | inr apart ↦ lookup-delete_other key key2 m apart ∙ absent
]

-- A store changes the lookup of its own key only.
pub lookup-store :
    (key : OboeSettingKey) (s : OboeSettings) (m : SettingsMap)
    → (lookup key (store key s m) ≡ some s)
      × ((key2 : OboeSettingKey)
          → key_eq key2 key ≡ false
          → lookup key2 (store key s m) ≡ lookup key2 m)
unfolding lookup store
lookup-store key s m =
    (rw (key_eq_refl key) refl, λ key2 apart. rw apart (lookup-delete_other key key2 m apart))

pub delete-IsUnique :
    (key : OboeSettingKey) (m : SettingsMap) → IsUnique m → IsUnique (delete key m)
unfolding delete IsUnique
delete-IsUnique key [] h = tt
delete-IsUnique key (entry ∷ rest) (absent, h) =
    if_both IsUnique (key_eq key entry.0) (λ _. delete-IsUnique key rest h)
      (λ _. (lookup-delete_absent key entry.0 rest absent, delete-IsUnique key rest h))

pub store-IsUnique :
    (key : OboeSettingKey) (s : OboeSettings) (m : SettingsMap)
    → IsUnique m
    → IsUnique (store key s m)
unfolding store IsUnique
store-IsUnique key s m h = (lookup-delete key m, delete-IsUnique key m h)

-- In a map with each key once, the expiry check removes just the settings whose time to live has
-- passed at its reading of the clock.
pub lookup-check_settings_timeout :
    (now : ℕ) (key : OboeSettingKey) (m : SettingsMap)
    → IsUnique m
    → lookup key (check_settings_timeout now m) ≡ unexpired now (lookup key m)
unfolding lookup check_settings_timeout IsUnique unexpired
lookup-check_settings_timeout now key [] h = refl
lookup-check_settings_timeout now key (entry ∷ rest) (absent, h) =
    elim (Bool-cases (key_eq key entry.0)) [
      | inl hit ↦ elim (Bool-cases (expired now entry.1)) [
        | inl old ↦
            rw (hit, old)
              (lookup-check_settings_timeout now key rest h
                ∙ ap (unexpired now) (ap (λ k. lookup k rest) (key_eq-eq key entry.0 hit) ∙ absent))
        | inr young ↦ rw (hit, young) (rw hit refl)
      ]
      | inr miss ↦ elim (Bool-cases (expired now entry.1)) [
        | inl old ↦ rw (miss, old) (lookup-check_settings_timeout now key rest h)
        | inr young ↦ rw (miss, young) (rw miss (lookup-check_settings_timeout now key rest h))
      ]
    ]

pub check_settings_timeout-IsUnique :
    (now : ℕ) (m : SettingsMap) → IsUnique m → IsUnique (check_settings_timeout now m)
unfolding check_settings_timeout IsUnique unexpired
check_settings_timeout-IsUnique now [] h = tt
check_settings_timeout-IsUnique now (entry ∷ rest) (absent, h) =
    if_both IsUnique (expired now entry.1) (λ _. check_settings_timeout-IsUnique now rest h)
      (λ _. (
        lookup-check_settings_timeout now entry.0 rest h ∙ ap (unexpired now) absent,
        check_settings_timeout-IsUnique now rest h,
      ))
