-- ===== src/Tracing/Naming/Named.antt =====
-- Every transaction gets a name.
use package.appoptics_apm_go.Base.{
  ◌≡◌, refl, Bool, false, not, ◌||◌, [], ◌∷◌, ◌++◌, if_both, if◌then◌else◌,
}
use package.appoptics_apm_go.Base.Text.{Text, codes}
use package.appoptics_apm_go.Tracing.{TraceHttpSpan}
use package.appoptics_apm_go.Tracing.Naming.{
  is_empty, prepend_domain_to_txn_name, chosen_name, finalize_txn_name, ends_with_slash,
  starts_with_slash,
}

appended : (s t : Text) → is_empty t ≡ false → is_empty (s ++ t) ≡ false
appended [] t h = h
appended (c ∷ s) t h = refl

prepended :
    (prepend : Bool) (host name : Text)
    → is_empty name ≡ false
    → is_empty (prepend_domain_to_txn_name prepend host name) ≡ false
unfolding prepend_domain_to_txn_name
prepended prepend host name named =
    if_both (λ (t : Text). is_empty t ≡ false) (not prepend || is_empty host) (λ _. named)
      (λ _.
        if_both (λ (t : Text). is_empty t ≡ false) (ends_with_slash host || starts_with_slash name)
          (λ _. appended host name named) (λ _. appended host _ refl))

or_custom :
    (chosen layer : Text)
    → is_empty (if is_empty chosen then codes "custom-" ++ layer else chosen) ≡ false
or_custom [] layer = refl
or_custom (c ∷ chosen) layer = refl

-- Whatever the request, the configuration and the end arguments give, the span message has a
-- transaction name that is not empty.
pub finalize_txn_name_named :
    (config_name : Text) (prepend : Bool) (context_name layer : Text) (http : TraceHttpSpan)
    (controller action : Text)
    → is_empty
        (finalize_txn_name config_name prepend context_name layer http controller
          action).span.transaction
      ≡ false
unfolding finalize_txn_name
finalize_txn_name_named config_name prepend context_name layer http controller action =
    prepended prepend http.span.host _ (
      or_custom
        (chosen_name (if is_empty config_name then context_name else config_name) http controller
          action)
        layer)
