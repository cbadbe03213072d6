-- ===== src/Reporter/Metadata/Runs.antt =====
-- Concrete metadata, and the theorems at concrete inputs.
use appoptics_apm_go.Base.{
  ℕ, ◌≡◌, refl, arith, [], ◌∷◌, ◌++◌, true, false, none, some, replicate, inr,
}
use appoptics_apm_go.Base.Text.{codes}
use appoptics_apm_go.Base.Hex.{hex_decode, hex_encode, to_upper, from_hex_char}
use appoptics_apm_go.Reporter.Metadata.{
  OboeMetadata, init, header_byte, pack, packed, unpack, task_len_of, op_len_of, validate,
  from_string, to_string, string, valid_metadata, invalid_task_id,
}
use appoptics_apm_go.Reporter.Metadata.Random.{
  Reads, random_task_id_loop, set_random_op_id, set_random,
}
use appoptics_apm_go.Reporter.Metadata.Fresh.{set_random-IsWellFormed}
use appoptics_apm_go.Reporter.Metadata.Packed.{IsWellFormed, wire, layout, pack-layout}
use appoptics_apm_go.Reporter.Metadata.Unpacked.{unpack-wire}
use appoptics_apm_go.Reporter.Metadata.RoundTrip.{
  from_string-string, from_string-IsWellFormed, from_string_again,
}

-- An X-Trace ID with a task ID of 20 bytes and an operation ID of 8.
abbrev sample : OboeMetadata
sample = record {
  version = 2;
  ids = record { task_id = replicate 20 0xab; op_id = replicate 8 0x01 };
  task_len = 20;
  op_len = 8;
  flags = 1;
}

sample-IsWellFormed : IsWellFormed sample
sample-IsWellFormed = record {
  version_two = refl;
  task_len_is = inr (inr (inr refl));
  op_len_is = inr refl;
  task_id_len = refl;
  op_id_len = refl;
  task_id_bytes = omega arith;
  op_id_bytes = omega arith;
  flags_byte = omega arith;
  not_all_zero = refl;
}

string-sample : string sample ≡ codes "2BABABABABABABABABABABABABABABABABABABABAB010101010101010101"
unfolding string to_string pack header_byte hex_encode to_upper
string-sample = refl

invalid_strings :
    (valid_metadata (codes "2B0000000000000000000000000000000000000000010101010101010101") ≡ false)
    × (valid_metadata (codes "2B01") ≡ false)
    × (valid_metadata (codes "1BABABABABABABABABABABABABABABABABABABABAB010101010101010101")
        ≡ false)
    × (valid_metadata (codes "2babababababababababababababababababababab010101010101010101") ≡ true)
unfolding valid_metadata from_string hex_decode from_hex_char unpack task_len_of op_len_of validate
invalid_strings = (refl, refl, refl, refl)

pack-layout_example : pack sample (replicate 32 7) ≡ packed 30 (layout sample ++ (7 ∷ 7 ∷ []))
pack-layout_example = pack-layout (replicate 32 7) sample-IsWellFormed (omega arith)

unpack-wire_example : unpack init (wire sample ++ (7 ∷ [])) ≡ (sample, none)
unpack-wire_example = unpack-wire init (7 ∷ []) sample-IsWellFormed

from_string-string_example : from_string init (string sample) ≡ (sample, none)
from_string-string_example = from_string-string init sample-IsWellFormed

read_sample :
    from_string init (codes "2BABABABABABABABABABABABABABABABABABABABAB010101010101010101")
    ≡ (sample, none)
unfolding from_string hex_decode from_hex_char unpack task_len_of op_len_of validate
read_sample = refl

from_string-IsWellFormed_example : IsWellFormed sample
from_string-IsWellFormed_example = from_string-IsWellFormed init sample _ read_sample

from_string_again_example : from_string sample (string sample) ≡ (sample, none)
from_string_again_example = from_string_again init sample sample _ read_sample

-- A reader that yields an all-zero task ID first.
abbrev reads : Reads
reads = some (replicate 20 0) ∷ some (replicate 20 0xab) ∷ some (replicate 8 1) ∷ []

random_sample : set_random init reads ≡ (record sample { flags = 0 }, none, [])
unfolding set_random random_task_id_loop set_random_op_id validate
random_sample = refl

-- Two of them, and `SetRandom` gives up.
random_zeros :
    (set_random init (some (replicate 20 0) ∷ some (replicate 20 0) ∷ [])).1 ≡ some invalid_task_id
unfolding set_random random_task_id_loop set_random_op_id validate
random_zeros = refl

set_random-IsWellFormed_example : IsWellFormed (record sample { flags = 0 }) × (◌≡◌ {A = ℕ} 0 0)
set_random-IsWellFormed_example =
    set_random-IsWellFormed reads [] (record sample { flags = 0 }) (omega arith) random_sample
