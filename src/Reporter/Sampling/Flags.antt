-- ===== src/Reporter/Sampling/Flags.antt =====
-- v1/ao/internal/reporter/event.go: the setting flags, the tracing modes and the sample sources;
-- oboe.go: the flags that a settings reply names. A flag word is a number of 16 bits.
pub mod Names
use appoptics_apm_go.Base.{
  ℕ, ◌≡◌, Bool, true, false, not, ◌==◌, if◌then◌else◌, List, [], ◌∷◌, bit_and, bit_or, bit_xor,
}
use appoptics_apm_go.Base.Text.{Text, codes, text_eq}
use appoptics_apm_go.Base.Split.{split}

abbrev pub flag_ok : ℕ
flag_ok = 0x0

abbrev pub flag_invalid : ℕ
flag_invalid = 1

abbrev pub flag_override : ℕ
flag_override = 2

abbrev pub flag_sample_start : ℕ
flag_sample_start = 4

abbrev pub flag_sample_through : ℕ
flag_sample_through = 8

abbrev pub flag_sample_through_always : ℕ
flag_sample_through_always = 16

abbrev pub flag_trigger_trace : ℕ
flag_trigger_trace = 32

abbrev pub max_sampling_rate : ℕ
max_sampling_rate = 1000000

pub data TracingMode : Type 0 where
  trace_disabled trace_enabled trace_unknown : TracingMode

pub data SampleSource : Type 0 where
  source_unset source_none source_file source_default source_layer : SampleSource

pub data SettingType : Type 0 where
  type_default type_layer : SettingType
  type_other : ℕ → SettingType

-- Go's `f & mask != 0`.
abbrev pub has_any : ℕ → ℕ → Bool
has_any f mask = not (bit_and f mask == 0)

-- Go's `f &^ mask` at 16 bits.
abbrev pub and_not : ℕ → ℕ → ℕ
and_not f mask = bit_and f (bit_xor mask 0xFFFF)

unfoldable pub enabled : ℕ → Bool
enabled f = has_any f (bit_or flag_sample_start flag_sample_through_always)

unfoldable pub trigger_trace_enabled : ℕ → Bool
trigger_trace_enabled f = has_any f flag_trigger_trace

unfoldable pub to_sample_source : SettingType → SampleSource
to_sample_source type_default = source_default
to_sample_source type_layer = source_layer
to_sample_source (type_other n) = source_none

abbrev pub enabled_tracing_mode : Text
enabled_tracing_mode = codes "enabled"

abbrev pub disabled_tracing_mode : Text
disabled_tracing_mode = codes "disabled"

abbrev pub unknown_tracing_mode : Text
unknown_tracing_mode = codes "unknown"

unfoldable pub new_tracing_mode : Text → TracingMode
new_tracing_mode mode =
    if text_eq mode disabled_tracing_mode
    then trace_disabled
    else if text_eq mode enabled_tracing_mode
    then trace_enabled
    else trace_unknown

unfoldable pub is_unknown : TracingMode → Bool
is_unknown trace_unknown = true
is_unknown _ = false

unfoldable pub to_flags : TracingMode → ℕ
to_flags trace_enabled =
    bit_or (bit_or flag_sample_start flag_sample_through_always) flag_trigger_trace
to_flags _ = flag_ok

unfoldable pub tracing_mode_to_string : TracingMode → Text
tracing_mode_to_string trace_enabled = enabled_tracing_mode
tracing_mode_to_string trace_disabled = disabled_tracing_mode
tracing_mode_to_string trace_unknown = unknown_tracing_mode

-- One name of the comma-separated list.
unfoldable pub add_flag : ℕ → Text → ℕ
add_flag flags s =
    if text_eq s (codes "OVERRIDE")
    then bit_or flags flag_override
    else if text_eq s (codes "SAMPLE_START")
    then bit_or flags flag_sample_start
    else if text_eq s (codes "SAMPLE_THROUGH")
    then bit_or flags flag_sample_through
    else if text_eq s (codes "SAMPLE_THROUGH_ALWAYS")
    then bit_or flags flag_sample_through_always
    else if text_eq s (codes "TRIGGER_TRACE")
    then bit_or flags flag_trigger_trace
    else flags

unfoldable pub add_flags : ℕ → List Text → ℕ
add_flags flags [] = flags
add_flags flags (s ∷ rest) = add_flags (add_flag flags s) rest

unfoldable pub flag_string_to_bin : Text → ℕ
flag_string_to_bin [] = 0
flag_string_to_bin (c ∷ flag_string) = add_flags 0 (split 44 (c ∷ flag_string))
