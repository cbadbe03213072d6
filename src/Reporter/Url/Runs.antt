-- ===== src/Reporter/Url/Runs.antt =====
-- A cache as an association list, filters, and the theorems at concrete inputs.
use appoptics_apm_go.Base.{
  ℕ, ◌≡◌, ◌⊎◌, inl, inr, refl, List, [], ◌∷◌, Option, none, some, if◌then◌else◌, Bool-cases, arith,
}
use appoptics_apm_go.Base.Text.{Text, codes, text_eq, text_eq_iff}
use appoptics_apm_go.Reporter.Sampling.Flags.{TracingMode, new_tracing_mode}
use appoptics_apm_go.Reporter.Sampling.Flags.TracingMode.{trace_disabled}
use appoptics_apm_go.Reporter.Url.{
  Regexp, UrlFilter, TransactionFilter, Cache, load_config, load_filter, load_by,
  new_extension_filter, lookup_tracing_mode, get_tracing_mode, url_match, filter_tracing_mode, ext,
  ext_from, trim_dots,
}
use appoptics_apm_go.Reporter.Url.Cached.{IsCoherent, empty-IsCoherent, get_tracing_mode-verdict}
use appoptics_apm_go.Reporter.Url.Loaded.{Governs, lookup-load_config, lookup_bad_regex}

abbrev Entries : Type 0
Entries = List (Text × Text)

abbrev find : ℕ → Entries → Text → Option Text
find at [] key = none
find at (entry ∷ rest) key = if text_eq entry.0 key then some entry.1 else find at rest key

find-add :
    (at later : ℕ) (c : Entries) (key value key2 found : Text)
    → find later ((key, value) ∷ c) key2 ≡ some found
    → ((key ≡ key2) × (value ≡ found)) ⊎ ((earlier : ℕ) × (find earlier c key2 ≡ some found))
find-add at later c key value key2 found e = elim (Bool-cases (text_eq key key2)) [
  | inl same ↦ inl ((text_eq_iff key key2).0 same, ground arith)
  | inr other ↦ inr (later, ground arith)
]

instance abbrev entries_cache : Cache Entries
entries_cache = record { get = find; set = λ at c key value. (key, value) ∷ c; get-set = find-add }

-- An expression that matches one text, and one that does not compile.
abbrev compile : Text → Option Regexp
compile pattern = if text_eq pattern (codes "(") then none else some (text_eq pattern)

abbrev png_off : TransactionFilter
png_off = record { reg_ex = []; extensions = codes "png" ∷ []; tracing = codes "disabled" }

abbrev bad : TransactionFilter
bad = record { reg_ex = codes "("; extensions = []; tracing = codes "disabled" }

abbrev health_off : TransactionFilter
health_off = record { reg_ex = codes "/health"; extensions = []; tracing = codes "disabled" }

verdicts :
    (lookup_tracing_mode (load_config compile (png_off ∷ [])) (codes "/a.b/c..png")
      ≡ some trace_disabled)
    × (ext (codes "/a.b/c") ≡ [])
    × (ext (codes "a.tar.gz") ≡ codes ".gz")
unfolding lookup_tracing_mode load_config load_filter load_by new_extension_filter new_tracing_mode
    url_match filter_tracing_mode ext ext_from trim_dots
verdicts = (refl, refl, refl)

abbrev no_entries : Entries
no_entries = []

abbrev filters : List UrlFilter
filters = load_config compile (health_off ∷ png_off ∷ [])

get_tracing_mode-verdict_example :
    ((get_tracing_mode filters 5 no_entries (codes "/health")).0
      ≡ lookup_tracing_mode filters (codes "/health"))
    × IsCoherent filters (get_tracing_mode filters 5 no_entries (codes "/health")).1
get_tracing_mode-verdict_example =
    get_tracing_mode-verdict filters 5 no_entries (codes "/health")
      (empty-IsCoherent filters no_entries (λ at url. refl))

lookup-load_config_example :
    (m : TracingMode) × (lookup_tracing_mode
        (load_config compile (health_off ∷ png_off ∷ []))
        (codes "/a")
      ≡ some m)
    × Governs compile (codes "/a") (health_off ∷ png_off ∷ []) m
lookup-load_config_example =
    lookup-load_config compile (health_off ∷ png_off ∷ []) (codes "/a") ((_, refl), (tt, tt))

lookup_bad_regex_example :
    lookup_tracing_mode (load_config compile (bad ∷ png_off ∷ [])) (codes "/a.png") ≡ none
lookup_bad_regex_example =
    lookup_bad_regex compile bad (png_off ∷ []) 40 [] (codes "/a.png") refl refl
