-- ===== src/Reporter/Url/Loaded.antt =====
-- Filters whose expressions compile, and filters whose expressions do not.
use appoptics_apm_go.Base.{ℕ, ◌≡◌, refl, Bool, true, false, List, [], ◌∷◌, Option, none, some, All}
use appoptics_apm_go.Base.Text.{Text}
use appoptics_apm_go.Reporter.Sampling.Flags.{TracingMode, new_tracing_mode}
use appoptics_apm_go.Reporter.Sampling.Flags.TracingMode.{trace_unknown}
use appoptics_apm_go.Base.Split.{named}
use appoptics_apm_go.Reporter.Url.{
  Regexp, UrlFilter, TransactionFilter, load_by, load_filter, new_extension_filter, load_config,
  lookup_tracing_mode, url_match, filter_tracing_mode, new_regex_filter, trim_dots, ext,
}

abbrev pub Compiles : (Text → Option Regexp) → Text → Type 0
Compiles compile [] = Unit
Compiles compile (c ∷ cs) = (re : Regexp) × (compile (c ∷ cs) ≡ some re)

-- Whether a filter of the configuration matches a URL: by its expression, or without one by the
-- extension of the URL.
pub data Matches (compile : Text → Option Regexp) (url : Text)
    : TransactionFilter → Bool → Type 0 where
  by_expression :
      (f : TransactionFilter) (c : ℕ) (regex : Text) (re : Regexp)
      → f.reg_ex ≡ c ∷ regex
      → compile (c ∷ regex) ≡ some re
      → Matches compile url f (re url)
  by_extension :
      (f : TransactionFilter)
      → f.reg_ex ≡ []
      → Matches compile url f (named (trim_dots (ext url)) f.extensions)

-- The mode that the configuration gives a URL: the mode of the first filter that matches, and
-- unknown where none does.
pub data Governs (compile : Text → Option Regexp) (url : Text)
    : List TransactionFilter → TracingMode → Type 0 where
  by_none : Governs compile url [] trace_unknown
  by_first :
      {f : TransactionFilter} {fs : List TransactionFilter}
      → Matches compile url f true
      → Governs compile url (f ∷ fs) (new_tracing_mode f.tracing)
  by_later :
      {f : TransactionFilter} {fs : List TransactionFilter} {m : TracingMode}
      → Matches compile url f false
      → Governs compile url fs m
      → Governs compile url (f ∷ fs) m

-- A loaded filter can be asked, and matches what the configuration says.
Answers : (Text → Option Regexp) → TransactionFilter → Text → UrlFilter → Type 0
Answers compile f url filter =
    (m : Bool) × (url_match filter url ≡ some m)
    × Matches compile url f m
    × (filter_tracing_mode filter ≡ some (new_tracing_mode f.tracing))

load_by-Answers :
    (compile : Text → Option Regexp) (f : TransactionFilter) (regex url : Text)
    → f.reg_ex ≡ regex
    → Compiles compile regex
    → Answers compile f url (load_by compile f regex)
unfolding Answers load_by url_match filter_tracing_mode new_extension_filter new_regex_filter
load_by-Answers compile f [] url is ok = (_, refl, by_extension f is, refl)
load_by-Answers compile f (c ∷ regex) url is (re, e) =
    rw e (re url, refl, by_expression f c regex re is e, refl)

answered :
    (compile : Text → Option Regexp) (f : TransactionFilter) (fs : List TransactionFilter)
    (filter : UrlFilter) (filters : List UrlFilter) (url : Text)
    → Answers compile f url filter
    → (m : TracingMode) × (lookup_tracing_mode filters url ≡ some m) × Governs compile url fs m
    → (m : TracingMode) × (lookup_tracing_mode (filter ∷ filters) url ≡ some m)
      × Governs compile url (f ∷ fs) m
unfolding Answers lookup_tracing_mode
answered compile f fs filter filters url (true, matches, by, gives) (m, rest, governs) =
    (_, rw matches gives, by_first by)
answered compile f fs filter filters url (false, matches, by, gives) (m, rest, governs) =
    (m, rw matches rest, by_later by governs)

-- Where every expression of the configuration compiles, the lookup of each URL gives the mode of
-- the first filter that matches it, and unknown where none does.
pub lookup-load_config :
    (compile : Text → Option Regexp) (filters : List TransactionFilter) (url : Text)
    → All (λ f. Compiles compile f.reg_ex) filters
    → (m : TracingMode) × (lookup_tracing_mode (load_config compile filters) url ≡ some m)
      × Governs compile url filters m
unfolding load_config load_filter lookup_tracing_mode
lookup-load_config compile [] url ok = (_, refl, by_none)
lookup-load_config compile (f ∷ fs) url (ok, oks) =
    answered compile f fs (load_filter compile f) (load_config compile fs) url
      (load_by-Answers compile f f.reg_ex url refl ok) (lookup-load_config compile fs url oks)

-- A first filter whose expression does not compile is not left out: the lookup of every URL then
-- calls it through a nil pointer.
pub lookup_bad_regex :
    (compile : Text → Option Regexp) (filter : TransactionFilter) (filters : List TransactionFilter)
    (c : ℕ) (regex url : Text)
    → filter.reg_ex ≡ c ∷ regex
    → compile (c ∷ regex) ≡ none
    → lookup_tracing_mode (load_config compile (filter ∷ filters)) url ≡ none
unfolding load_config load_filter load_by new_regex_filter lookup_tracing_mode url_match
lookup_bad_regex compile filter filters c regex url is bad = rw (is, bad) refl
