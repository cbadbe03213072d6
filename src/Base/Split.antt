-- ===== src/Base/Split.antt =====
-- Go's `strings.Split` with a separator of one character.
use package.appoptics_apm_go.Base.{ℕ, Bool, false, List, [], ◌∷◌, ◌==◌, ◌||◌, if◌then◌else◌}
use package.appoptics_apm_go.Base.Text.{Text, text_eq}

abbrev pub onto_first : ℕ → List Text → List Text
onto_first c [] = []
onto_first c (field ∷ fields) = (c ∷ field) ∷ fields

abbrev pub split : ℕ → Text → List Text
split separator [] = [] ∷ []
split separator (c ∷ text) =
    let fields = split separator text in if c == separator then [] ∷ fields else onto_first c fields

-- Whether a name is among the fields.
abbrev pub named : Text → List Text → Bool
named name [] = false
named name (field ∷ fields) = text_eq field name || named name fields
