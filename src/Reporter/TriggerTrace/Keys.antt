-- ===== src/Reporter/TriggerTrace/Keys.antt =====
-- Which keys the options of a trigger trace leave.
use appoptics_apm_go.Base.{
  ℕ, ◌≡◌, refl, Bool, true, false, not, ◌&&◌, ◌||◌, List, [], ◌∷◌, Option, none, some, All, arith,
  Bool-cases, inl, inr, if_both,
}
use appoptics_apm_go.Base.Text.{Text, codes, text_eq}
use appoptics_apm_go.Base.Split.{split, named}
use appoptics_apm_go.Reporter.Sampling.Settings.{SettingsMap}
use appoptics_apm_go.Reporter.Sampling.Request.{trigger_requested}
use appoptics_apm_go.Reporter.TriggerTrace.{AuthError}
use appoptics_apm_go.Reporter.TriggerTrace.Options.{
  Kvs, Parsed, kvs_delete, kvs_set, split_key, has_space, has_prefix, known_key, kept_key, ignore,
  keep, add_option, parse_split, parse_options, no_options, authenticated, requested_mode,
  mode_of_flag, parse_trigger_trace_flag, trim_space,
}

-- The keys that are reported: "PDKeys", and those that begin with "custom-" and have no space.
unfoldable pub reported : Text → Bool
reported k = not (has_space k) && (text_eq k (codes "PDKeys") || has_prefix (codes "custom-") k)

abbrev IsReported : Text × Text → Type 0
IsReported kv = reported kv.0 ≡ true

abbrev IsKept : Text × Text → Type 0
IsKept kv = (reported kv.0 || text_eq (codes "trigger-trace") kv.0) ≡ true

delete_trigger :
    (kvs : Kvs) → All IsKept kvs → All IsReported (kvs_delete (codes "trigger-trace") kvs)
unfolding kvs_delete
delete_trigger [] h = tt
delete_trigger (kv ∷ kvs) (h, hs) = elim (Bool-cases (text_eq (codes "trigger-trace") kv.0)) [
  | inl e ↦ rw e (delete_trigger kvs hs)
  | inr e ↦ rw e (ground arith, delete_trigger kvs hs)
]

All-kvs_delete :
    (P : Text × Text → Type 0) (key : Text) (kvs : Kvs) → All P kvs → All P (kvs_delete key kvs)
unfolding kvs_delete
All-kvs_delete P key [] h = tt
All-kvs_delete P key (kv ∷ kvs) (h, hs) =
    if_both (All P) (text_eq key kv.0) (λ _. All-kvs_delete P key kvs hs)
      (λ _. (h, All-kvs_delete P key kvs hs))

text_eq_swap : (a b : Text) → text_eq a b ≡ text_eq b a
text_eq_swap [] [] = refl
text_eq_swap [] (y ∷ b) = refl
text_eq_swap (x ∷ a) [] = refl
text_eq_swap (x ∷ a) (y ∷ b) = ground (arith, text_eq_swap a b)

kept_by :
    (space custom pd trigger ts renamed trigger2 : Bool)
    → space ≡ false
    → (custom || pd || trigger || ts) ≡ true
    → pd ≡ false
    → ts ≡ false
    → trigger ≡ trigger2
    → ((not space && (renamed || custom)) || trigger2) ≡ true
kept_by space custom pd trigger ts renamed trigger2 a b c d e = ground arith

other_key-IsKept :
    (k v : Text)
    → has_space k ≡ false
    → known_key k ≡ true
    → text_eq k (codes "pd-keys") ≡ false
    → text_eq k (codes "ts") ≡ false
    → IsKept (k, v)
unfolding known_key reported
other_key-IsKept k v bare known not_pd not_ts =
    kept_by (has_space k) (has_prefix (codes "custom-") k) (text_eq k (codes "pd-keys"))
      (text_eq k (codes "trigger-trace")) (text_eq k (codes "ts")) (text_eq k (codes "PDKeys"))
      (text_eq (codes "trigger-trace") k) bare known not_pd not_ts
      (text_eq_swap k (codes "trigger-trace"))

kept_key-IsKept :
    (k v : Text)
    → has_space k ≡ false
    → known_key k ≡ true
    → text_eq (kept_key k) (codes "ts") ≡ false
    → IsKept (kept_key k, v)
unfolding reported has_space has_prefix
kept_key-IsKept k v bare known other = elim (Bool-cases (text_eq k (codes "pd-keys"))) [
  | inl e ↦ rw e refl
  | inr e ↦ rw e (other_key-IsKept k v bare known e (rw e at other))
]

ignored-IsKept : (k : Text) (p : Parsed) → All IsKept p.kvs → All IsKept (ignore k p).kvs
ignored-IsKept k p h = h

keep-IsKept :
    (k v : Text) (p : Parsed)
    → (text_eq k (codes "ts") ≡ false → IsKept (k, v))
    → All IsKept p.kvs
    → All IsKept (keep k v p).kvs
unfolding keep kvs_set
keep-IsKept k v p ok h = elim (Bool-cases (text_eq k (codes "ts"))) [
  | inl e ↦ rw e h
  | inr e ↦ rw e (ok e, All-kvs_delete IsKept k p.kvs h)
]

add_option-IsKept : (k v : Text) (p : Parsed) → All IsKept p.kvs → All IsKept (add_option k v p).kvs
unfolding add_option
add_option-IsKept k v p h =
    if_both (λ (q : Parsed). All IsKept q.kvs) (has_space k) (λ _. h)
      (λ bare.
        if_both (λ (q : Parsed). All IsKept q.kvs) (not (known_key k)) (λ _. h)
          (λ known.
            if_both (λ (q : Parsed). All IsKept q.kvs) (named (kept_key k) p.seen) (λ _. h)
              (λ _. keep-IsKept (kept_key k) v p (kept_key-IsKept k v bare (ground arith)) h)))

parse_split-IsKept :
    (kv : Text × Option Text) (p : Parsed) → All IsKept p.kvs → All IsKept (parse_split kv p).kvs
unfolding parse_split
parse_split-IsKept (k, some v) p h = add_option-IsKept (trim_space k) (trim_space v) p h
parse_split-IsKept (k, none) p h =
    if_both (λ (q : Parsed). All IsKept q.kvs) (not (text_eq k (codes "trigger-trace"))) (λ _. h)
      (λ _. add_option-IsKept (trim_space k) [] p h)

parse_options-IsKept :
    (opts : List Text) (p : Parsed) → All IsKept p.kvs → All IsKept (parse_options opts p).kvs
unfolding parse_options
parse_options-IsKept [] p h = h
parse_options-IsKept (opt ∷ opts) p h =
    parse_options-IsKept opts _ (parse_split-IsKept (split_key opt) p h)

mode-IsReported :
    (flag : Option Text) (sig : Text) (p : Parsed) (validity : Option AuthError)
    → All IsKept p.kvs
    → trigger_requested (mode_of_flag flag sig p validity).mode ≡ true
    → All IsReported (mode_of_flag flag sig p validity).kvs
unfolding mode_of_flag requested_mode authenticated trigger_requested
mode-IsReported none sig p validity h e = absurd (ground arith)
mode-IsReported (some (c ∷ value)) sig p validity h e = absurd (ground arith)
mode-IsReported (some []) [] p validity h e = delete_trigger p.kvs h
mode-IsReported (some []) (c ∷ sig) p none h e = delete_trigger p.kvs h
mode-IsReported (some []) (c ∷ sig) p (some err) h e = tt

-- The pairs that a trigger trace request adds to its entry event have the key "PDKeys", or one
-- that begins with "custom-" and has no ASCII space: "trigger-trace" and "ts" are never among them.
pub parse_trigger_trace_flag-IsReported :
    (hmac_hash : List ℕ → Text → Text) (settings : SettingsMap) (now : ℕ) (opts sig : Text)
    → trigger_requested (parse_trigger_trace_flag hmac_hash settings now opts sig).mode ≡ true
    → All
        (λ kv. reported kv.0 ≡ true)
        (parse_trigger_trace_flag hmac_hash settings now opts sig).kvs
unfolding parse_trigger_trace_flag
parse_trigger_trace_flag-IsReported hmac_hash settings now [] sig e = tt
parse_trigger_trace_flag-IsReported hmac_hash settings now (c ∷ opts) sig e =
    mode-IsReported _ sig _ _ (parse_options-IsKept (split 59 (c ∷ opts)) no_options tt) e
