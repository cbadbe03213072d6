-- ===== src/Reporter/Url/Cached.antt =====
-- The cache changes no verdict.
use appoptics_apm_go.Base.{
  ℕ, ◌≡◌, inl, inr, refl, ap, sym, ◌∙◌, List, [], ◌∷◌, Option, none, some, arith,
}
use appoptics_apm_go.Base.Options.{◌>>=◌}
use appoptics_apm_go.Base.Text.{Text}
use appoptics_apm_go.Reporter.Sampling.Flags.{TracingMode, new_tracing_mode, tracing_mode_to_string}
use appoptics_apm_go.Reporter.Sampling.Flags.TracingMode.{
  trace_enabled, trace_disabled, trace_unknown,
}
use appoptics_apm_go.Reporter.Url.{
  UrlFilter, Cache, get_tracing_mode, get_url_trace, set_url_trace, lookup_tracing_mode, remember,
  cached_or,
}

new_tracing_mode-to_string : (m : TracingMode) → new_tracing_mode (tracing_mode_to_string m) ≡ m
unfolding new_tracing_mode tracing_mode_to_string
new_tracing_mode-to_string trace_enabled = refl
new_tracing_mode-to_string trace_disabled = refl
new_tracing_mode-to_string trace_unknown = refl

-- The verdict by the filters alone.
abbrev pub verdict : List UrlFilter → Text → Option TracingMode
verdict filters [] = some trace_unknown
verdict filters (c ∷ url) = lookup_tracing_mode filters (c ∷ url)

module _ {C : Type 0} ⦃cache : Cache C⦄ (filters : List UrlFilter) where
  -- Whatever the cache may return is the filters' verdict.
  pub IsCoherent : C → Type 0
  IsCoherent c =
      (at : ℕ) (url found : Text)
      → cache.get at c url ≡ some found
      → verdict filters url ≡ some (new_tracing_mode found)

  -- A cache that returns nothing, as a new one does.
  pub empty-IsCoherent :
      (c : C) → ((at : ℕ) (url : Text) → cache.get at c url ≡ none) → IsCoherent c
  unfolding IsCoherent
  empty-IsCoherent c nothing at url found e = absurd (ground (arith, nothing at url))

  set_url_trace-IsCoherent :
      (now : ℕ) (c : C) (url : Text) (trace : TracingMode)
      → verdict filters url ≡ some trace
      → IsCoherent c
      → IsCoherent (set_url_trace now c url trace)
  unfolding IsCoherent set_url_trace
  set_url_trace-IsCoherent now c url trace is h at key found e =
      elim (cache.get-set now at c url _ key found e) [
        | inl (same, value) ↦
            ap (verdict filters) (sym same)
            ∙ is
            ∙ ap some (sym (new_tracing_mode-to_string trace) ∙ ap new_tracing_mode value)
        | inr (earlier, e2) ↦ h earlier key found e2
      ]

  remember-IsCoherent :
      (now : ℕ) (c : C) (url : Text) (looked_up : Option TracingMode)
      → verdict filters url ≡ looked_up
      → IsCoherent c
      → ((remember now c url looked_up).0 ≡ verdict filters url)
        × IsCoherent (remember now c url looked_up).1
  remember-IsCoherent now c url none e h = (sym e, h)
  remember-IsCoherent now c url (some trace) e h =
      (sym e, set_url_trace-IsCoherent now c url trace e h)

  cached_or-IsCoherent :
      (now : ℕ) (c : C) (url : Text) (hit : Option Text) (miss : Option TracingMode × C)
      → cache.get now c url ≡ hit
      → IsCoherent c
      → (miss.0 ≡ verdict filters url) × IsCoherent miss.1
      → ((cached_or (hit >>= λ t. some (new_tracing_mode t)) miss c).0 ≡ verdict filters url)
        × IsCoherent (cached_or (hit >>= λ t. some (new_tracing_mode t)) miss c).1
  unfolding IsCoherent
  cached_or-IsCoherent now c url none miss e h ok = ok
  cached_or-IsCoherent now c url (some found) miss e h ok = (sym (h now url found e), h)

-- Whatever the cache keeps or drops, `getTracingMode` gives the verdict of the filters alone, and
-- it leaves the cache coherent.
pub get_tracing_mode-verdict :
    {C : Type 0} ⦃cache : Cache C⦄ (filters : List UrlFilter) (now : ℕ) (c : C) (url : Text)
    → IsCoherent filters c
    → ((get_tracing_mode filters now c url).0 ≡ verdict filters url)
      × IsCoherent filters (get_tracing_mode filters now c url).1
unfolding get_tracing_mode get_url_trace lookup_tracing_mode
get_tracing_mode-verdict [] now c [] h = (refl, h)
get_tracing_mode-verdict [] now c (x ∷ url) h = (refl, h)
get_tracing_mode-verdict (f ∷ fs) now c [] h = (refl, h)
get_tracing_mode-verdict (f ∷ fs) now c (x ∷ url) h =
    cached_or-IsCoherent (f ∷ fs) now c (x ∷ url) _ _ refl h
      (remember-IsCoherent (f ∷ fs) now c (x ∷ url) _ refl h)
