-- ===== src/Reporter/Url.antt =====
-- v1/ao/internal/reporter/url.go: the transaction filters, by regular expression or by extension,
-- and the cache of their verdicts. `regexp.Compile` and the cache are parameters; a call through a
-- nil pointer is no result.
pub mod Cached
pub mod Loaded
mod Runs
use appoptics_apm_go.Base.{
  ℕ, ◌≡◌, ◌⊎◌, Bool, true, false, ◌&&◌, ◌||◌, ◌==◌, if◌then◌else◌, List, [], ◌∷◌, ◌++◌, Option,
  none, some,
}
use appoptics_apm_go.Base.Options.{◌>>=◌}
use appoptics_apm_go.Base.Text.{Text, text_eq}
use appoptics_apm_go.Base.Split.{named}
use appoptics_apm_go.Reporter.Sampling.Flags.{TracingMode, new_tracing_mode, tracing_mode_to_string}
use appoptics_apm_go.Reporter.Sampling.Flags.TracingMode.{trace_unknown}

-- What a compiled regular expression is used for: `MatchString`.
abbrev pub Regexp : Type 0
Regexp = Text → Bool

pub record RegexFilter : Type 0 where
  pub regex : Regexp
  pub trace : TracingMode

pub record ExtensionFilter : Type 0 where
  pub exts : List Text
  pub trace : TracingMode

-- The interface's two implementations; a `*regexFilter` may be nil.
pub data UrlFilter : Type 0 where
  regex_filter : Option RegexFilter → UrlFilter
  extension_filter : ExtensionFilter → UrlFilter

-- A filter of the configuration.
pub record TransactionFilter : Type 0 where
  pub reg_ex : Text
  pub extensions : List Text
  pub tracing : Text

unfoldable pub new_regex_filter : (Text → Option Regexp) → Text → TracingMode → Option RegexFilter
new_regex_filter compile regex mode =
    compile regex >>= λ re. some (record { regex = re; trace = mode })

unfoldable pub new_extension_filter : List Text → TracingMode → ExtensionFilter
new_extension_filter extensions mode = record { exts = extensions; trace = mode }

-- `filepath.Ext`: from the last dot of the last element of the path. The second component says
-- whether the rest of the path has a dot or a slash, so that this dot is not the last.
unfoldable pub ext_from : Text → Text × Bool
ext_from [] = ([], false)
ext_from (c ∷ path) =
    let rest = ext_from path in
    if rest.1
    then rest
    else if c == 46
    then (c ∷ path, true)
    else if c == 47
    then ([], true)
    else rest

unfoldable pub ext : Text → Text
ext path = (ext_from path).0

-- `strings.TrimLeft(s, ".")`
unfoldable pub trim_dots : Text → Text
trim_dots [] = []
trim_dots (c ∷ text) = let rest = trim_dots text in if c == 46 then rest else c ∷ text

unfoldable pub url_match : UrlFilter → Text → Option Bool
url_match (regex_filter none) url = none
url_match (regex_filter (some f)) url = some (f.regex url)
url_match (extension_filter f) url = some (named (trim_dots (ext url)) f.exts)

unfoldable pub filter_tracing_mode : UrlFilter → Option TracingMode
filter_tracing_mode (regex_filter none) = none
filter_tracing_mode (regex_filter (some f)) = some f.trace
filter_tracing_mode (extension_filter f) = some f.trace

-- A filter whose expression does not compile is logged as ignored; the nil pointer is appended.
unfoldable pub load_by : (Text → Option Regexp) → TransactionFilter → Text → UrlFilter
load_by compile filter [] =
    extension_filter (new_extension_filter filter.extensions (new_tracing_mode filter.tracing))
load_by compile filter (c ∷ regex) =
    regex_filter (new_regex_filter compile (c ∷ regex) (new_tracing_mode filter.tracing))

unfoldable pub load_filter : (Text → Option Regexp) → TransactionFilter → UrlFilter
load_filter compile filter = load_by compile filter filter.reg_ex

unfoldable pub load_config : (Text → Option Regexp) → List TransactionFilter → List UrlFilter
load_config compile [] = []
load_config compile (filter ∷ filters) = load_filter compile filter ∷ load_config compile filters

unfoldable pub lookup_tracing_mode : List UrlFilter → Text → Option TracingMode
lookup_tracing_mode [] url = some trace_unknown
lookup_tracing_mode (filter ∷ filters) url =
    let rest = lookup_tracing_mode filters url in
    url_match filter url >>= λ matches. if matches then filter_tracing_mode filter else rest

-- The cache: an entry that it returns was set, at whatever time, and may be dropped at any time.
pub record Cache (C : Type 0) : Type 0 where
  pub get : ℕ → C → Text → Option Text
  pub set : ℕ → C → Text → Text → C
  pub get-set :
      (at later : ℕ) (c : C) (key value : Text) (key2 found : Text)
      → get later (set at c key value) key2 ≡ some found
      → ((key ≡ key2) × (value ≡ found)) ⊎ ((earlier : ℕ) × (get earlier c key2 ≡ some found))

module _ {C : Type 0} ⦃cache : Cache C⦄ where
  unfoldable pub set_url_trace : ℕ → C → Text → TracingMode → C
  set_url_trace now c url trace = cache.set now c url (tracing_mode_to_string trace)

  unfoldable pub get_url_trace : ℕ → C → Text → Option TracingMode
  get_url_trace now c url = cache.get now c url >>= λ trace. some (new_tracing_mode trace)

  abbrev pub remember : ℕ → C → Text → Option TracingMode → Option TracingMode × C
  remember now c url none = (none, c)
  remember now c url (some trace) = (some trace, set_url_trace now c url trace)

  abbrev pub cached_or : Option TracingMode → Option TracingMode × C → C → Option TracingMode × C
  cached_or (some trace) looked_up c = (some trace, c)
  cached_or none looked_up c = looked_up

  unfoldable pub get_tracing_mode : List UrlFilter → ℕ → C → Text → Option TracingMode × C
  get_tracing_mode [] now c url = (some trace_unknown, c)
  get_tracing_mode (f ∷ fs) now c [] = (some trace_unknown, c)
  get_tracing_mode (f ∷ fs) now c (x ∷ url) =
      cached_or (get_url_trace now c (x ∷ url))
        (remember now c (x ∷ url) (lookup_tracing_mode (f ∷ fs) (x ∷ url))) c
