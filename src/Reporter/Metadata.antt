-- ===== src/Reporter/Metadata.antt =====
-- v1/ao/internal/reporter/context.go: the X-Trace metadata, its packed form and its string form.
-- A byte slice is a list of numbers. The receivers are never nil: each is the address of a field,
-- or of a new struct. Both ID slices are fresh where a method writes to them.
pub mod Random
pub mod Flags
pub mod Fresh
pub mod Packed
pub mod Unpacked
pub mod RoundTrip
mod Runs
use appoptics_apm_go.Base.{
  ℕ, zero, suc, bit_xor, ◌+◌, ◌*◌, ◌/◌, ◌%◌, Bool, true, false, not, ◌||◌, List, [], ◌∷◌, ◌++◌,
  Option, none, some, ltb, ◌==◌, if◌then◌else◌, length, take, drop, set, replicate, bit_and, bit_or,
}
use appoptics_apm_go.Base.Slices.{copy, copy_at}
use appoptics_apm_go.Base.Hex.{hex_decode, hex_encode, to_upper}
use appoptics_apm_go.Base.Text.{Text, text_eq}

abbrev pub mask_task_id_len : ℕ
mask_task_id_len = 0x03

abbrev pub mask_op_id_len : ℕ
mask_op_id_len = 0x08

abbrev pub mask_version : ℕ
mask_version = 0xF0

abbrev pub xtr_current_version : ℕ
xtr_current_version = 2

abbrev pub oboe_max_task_id_len : ℕ
oboe_max_task_id_len = 20

abbrev pub oboe_max_op_id_len : ℕ
oboe_max_op_id_len = 8

abbrev pub oboe_max_metadata_pack_len : ℕ
oboe_max_metadata_pack_len = 512

abbrev pub xtr_flags_sampled : ℕ
xtr_flags_sampled = 1

abbrev pub all_zero_task_id : List ℕ
all_zero_task_id = replicate oboe_max_task_id_len 0

pub record OboeIds : Type 0 where
  pub task_id : List ℕ
  pub op_id : List ℕ

pub record OboeMetadata : Type 0 where
  pub version : ℕ
  pub ids : OboeIds
  pub task_len : ℕ
  pub op_len : ℕ
  pub flags : ℕ

-- The errors of the metadata's methods, one for each text. `rand_failed` is what the random
-- reader returned.
pub data MdError : Type 0 where
  invalid_task_id zero_len buf_too_short empty_buf unrecognized_version : MdError
  wrong_header_length hex_not_even too_many_hex_bytes hex_not_valid rand_failed : MdError

-- `validate`; `none` is the nil error.
unfoldable pub validate : OboeIds → Option MdError
validate ids = if not (text_eq all_zero_task_id ids.task_id) then none else some invalid_task_id

-- `Init` on the zero value, whose flags are 0.
abbrev pub init : OboeMetadata
init = record {
  version = xtr_current_version;
  ids = record {
    task_id = replicate oboe_max_task_id_len 0;
    op_id = replicate oboe_max_op_id_len 0;
  };
  task_len = oboe_max_task_id_len;
  op_len = oboe_max_op_id_len;
  flags = 0;
}

-- `(uint8(n) >> 2) - 1`
abbrev pub len_bits : ℕ → ℕ
len_bits n = (n % 256 / 4 + 255) % 256

-- The byte that `Pack` writes at `buf[0]`.
unfoldable pub header_byte : ℕ → ℕ → ℕ → ℕ
header_byte version task_len op_len =
    let task_bits = len_bits task_len in
    let start = version * 16 % 256 in
    bit_or (bit_or start (if task_bits == 4 then 3 else task_bits)) (len_bits op_len * 8 % 256)

pub data Packing : Type 0 where
  packed : ℕ → List ℕ → Packing
  pack_error : MdError → Packing

-- `Pack`: the length, and what `buf` holds after it.
unfoldable pub pack : OboeMetadata → List ℕ → Packing
pack md buf =
    let req_len = md.task_len + md.op_len + 2 in
    let behind_task = 1 + md.task_len in
    let behind_op = 1 + md.task_len + md.op_len in
    let buf1 = set buf 0 (header_byte md.version md.task_len md.op_len) in
    let buf2 = copy_at buf1 1 behind_task md.ids.task_id in
    let buf3 = copy_at buf2 behind_task behind_op md.ids.op_id in
    if md.task_len == 0 || md.op_len == 0
    then pack_error zero_len
    else if ltb (length buf) req_len
    then pack_error buf_too_short
    else packed req_len (set buf3 behind_op md.flags)

abbrev pub version_of : ℕ → ℕ
version_of flag = bit_and flag mask_version / 16

-- `(int(flag&maskTaskIDLen) + 1) << 2`, with 16 read as 20.
unfoldable pub task_len_of : ℕ → ℕ
task_len_of flag = let n = (bit_and flag mask_task_id_len + 1) * 4 in if n == 16 then 20 else n

unfoldable pub op_len_of : ℕ → ℕ
op_len_of flag = (bit_and flag mask_op_id_len / 8 + 1) * 4

-- The byte at an index that the guard before it has checked.
abbrev pub byte_at : List ℕ → ℕ → ℕ
byte_at b i = elim (drop i b) [ [] ↦ 0 | x ∷ _ ↦ x ]

-- What `Unpack` stores, for the first byte and the rest.
abbrev pub unpacked : ℕ → List ℕ → OboeMetadata
unpacked flag rest =
    let task_len = task_len_of flag in
    let op_len = op_len_of flag in
    record {
      version = version_of flag;
      ids = record { task_id = take task_len rest; op_id = take op_len (drop task_len rest) };
      task_len = task_len;
      op_len = op_len;
      flags = byte_at rest (task_len + op_len);
    }

-- `Unpack`: the metadata after it, and its error.
unfoldable pub unpack : OboeMetadata → List ℕ → OboeMetadata × Option MdError
unpack md [] = (md, some empty_buf)
unpack md (flag ∷ rest) =
    if not (version_of flag == xtr_current_version)
    then (md, some unrecognized_version)
    else if ltb (suc (length rest)) (task_len_of flag + op_len_of flag + 2)
    then (md, some wrong_header_length)
    else (unpacked flag rest, none)

-- The end of `FromString`, on the result of `Unpack`.
abbrev pub validated : OboeMetadata × Option MdError → OboeMetadata × Option MdError
validated (md, some e) = (md, some e)
validated (md, none) = (md, validate md.ids)

-- `FromString`. `hex.Decode` without an error decodes `len(buf)/2` bytes.
unfoldable pub from_string : OboeMetadata → Text → OboeMetadata × Option MdError
from_string md buf =
    if length buf % 2 == 1
    then (md, some hex_not_even)
    else if ltb oboe_max_metadata_pack_len (length buf / 2)
    then (md, some too_many_hex_bytes)
    else elim (hex_decode buf) [
      | none ↦ (md, some hex_not_valid)
      | some ubuf ↦ validated (unpack md ubuf)
    ]

pub data Printed : Type 0 where
  printed : Text → Printed
  print_error : MdError → Printed

abbrev pub hex_upper : List ℕ → Text
hex_upper b = to_upper (hex_encode b)

abbrev pub printed_packed : Packing → Printed
printed_packed (packed result buf) = printed (hex_upper (take result buf))
printed_packed (pack_error e) = print_error e

-- `ToString`
unfoldable pub to_string : OboeMetadata → Printed
to_string md = printed_packed (pack md (replicate 64 0))

abbrev pub text_of : Printed → Text
text_of (printed s) = s
text_of (print_error e) = []

-- `String`
unfoldable pub string : OboeMetadata → Text
string md = text_of (to_string md)

-- `opString`
unfoldable pub op_string : OboeMetadata → Text
op_string md = hex_upper (take md.op_len md.ids.op_id)

-- `ValidMetadata`
unfoldable pub valid_metadata : Text → Bool
valid_metadata s = elim (from_string init s).1 [ none ↦ true | some e ↦ false ]

unfoldable pub is_sampled : OboeMetadata → Bool
is_sampled md = not (bit_and md.flags xtr_flags_sampled == 0)

-- `SetSampled` of the context that holds the metadata.
unfoldable pub set_sampled : Bool → OboeMetadata → OboeMetadata
set_sampled true md = record md { flags = bit_or md.flags xtr_flags_sampled }
set_sampled false md = record md { flags = bit_xor md.flags xtr_flags_sampled }
