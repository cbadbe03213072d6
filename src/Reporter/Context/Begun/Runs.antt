-- ===== src/Reporter/Context/Begun/Runs.antt =====
-- Concrete calls of `NewContext`: a sampler that traces every other request, and events that are
-- counted.
use package.appoptics_apm_go.Base.{
  ℕ, ◌+◌, ◌%◌, ◌==◌, ◌≡◌, Option, refl, true, [], ◌∷◌, ◌++◌, none, some, replicate,
}
use package.appoptics_apm_go.Base.Hex.{hex_decode, from_hex_char}
use package.appoptics_apm_go.Base.Text.{Text, codes}
use package.appoptics_apm_go.Reporter.Sampling.Flags.SampleSource.{source_none}
use package.appoptics_apm_go.Reporter.Metadata.{
  OboeMetadata, from_string, unpack, task_len_of, op_len_of, validate, is_sampled,
}
use package.appoptics_apm_go.Reporter.Context.{
  new_context_from_metadata_string, get_version, context_is_sampled,
}
use package.appoptics_apm_go.Reporter.TriggerTrace.Options.{
  parse_trigger_trace_flag, mode_of_flag, kvs_get, parse_options, parse_split, split_key,
  add_option, has_space, trim_space, trim_left, is_space, known_key, has_prefix, keep, kvs_set,
  kvs_delete, requested_mode,
}
use package.appoptics_apm_go.Reporter.Context.Headers.{add_ignored}
use package.appoptics_apm_go.Reporter.Context.Begun.{
  Agent, Begun, NewOptions, report_made, new_context_with_options, deferred, begun_of, obey, unset,
}

abbrev alternating : Agent ℕ ℕ ℕ
alternating = record {
  zero_float = 0;
  should_trace_request = λ traced mode s. (
    record {
      trace = s % 2 == 0;
      rate = 1000000;
      source = source_none;
      enabled = true;
      x_trace_opts_rsp = codes "ok";
      bucket_cap = 1;
      bucket_rate = 1;
    },
    s + 1,
  );
  enabled_by_settings = λ s. some true;
  report_entry = λ ctx edge kvs s. (report_made (some (replicate 8 (s + 3))), s + 10);
}

abbrev id_of : ℕ → Text
id_of flags = codes "2B010101010101010101010101010101010101010102020202020202020" ++ (flags ∷ [])

abbrev calling : Text → Text → NewOptions ℕ
calling md_str explicit = record {
  report_entry = true;
  md_str = md_str;
  explicit_md_str = explicit;
  x_trace_options = codes "unknown;trigger-trace";
  x_trace_options_signature = [];
  cb = some ((codes "k", 1) ∷ []);
}

abbrev upstream : OboeMetadata
upstream = record {
  version = 2;
  ids = record { task_id = replicate 20 1; op_id = replicate 8 2 };
  task_len = 20;
  op_len = 8;
  flags = 1;
}

abbrev continued : Option (Begun ℕ)
continued =
    new_context_with_options alternating (λ key text. []) [] 0 (calling (id_of 49) []) [] [] 0

-- The panic: an explicit X-Trace ID that is not sampled, and an option that is ignored.
explicit_panic :
    new_context_with_options alternating (λ key text. []) [] 0 (calling [] (id_of 48)) [] [] 0
    ≡ none
unfolding new_context_with_options deferred add_ignored begun_of obey unset parse_trigger_trace_flag
    mode_of_flag kvs_get parse_options parse_split split_key add_option has_space trim_space
    trim_left is_space known_key has_prefix keep kvs_set kvs_delete requested_mode from_string
    hex_decode from_hex_char unpack task_len_of op_len_of validate new_context_from_metadata_string
    get_version context_is_sampled is_sampled
explicit_panic = refl
