-- ===== src/Bson.antt =====
-- v1/ao/internal/bson/bson.go: the append-only encoder of events. A byte slice, and a Go string, is
-- a list of numbers; an int32, an int64 and the bits of a float64 are residues modulo 2^32 and
-- 2^64. A write out of bounds panics, and gives no buffer.
pub mod Document
pub mod Written
mod Runs
use appoptics_apm_go.Base.{
  ℕ, suc, ◌+◌, ◌-◌, ◌*◌, ◌/◌, ◌%◌, ◌^◌, Bool, true, false, ◌||◌, ltb, leb, if◌then◌else◌, List, [],
  ◌∷◌, ◌++◌, Option, none, some, length, set,
}

abbrev pub Buffer : Type 0
Buffer = List ℕ

unfoldable pub add_bytes : List ℕ → Buffer → Buffer
add_bytes v b = b ++ v

-- The four bytes of an int32, and the eight of an int64, the lowest first.
abbrev pub bytes4 : ℕ → List ℕ
bytes4 v = v % 256 ∷ v / 256 % 256 ∷ v / 65536 % 256 ∷ v / 16777216 % 256 ∷ []

abbrev pub bytes8 : ℕ → List ℕ
bytes8 v = bytes4 v ++ bytes4 (v / 2 ^ 32)

unfoldable pub add_int32 : ℕ → Buffer → Buffer
add_int32 v b = add_bytes (bytes4 v) b

unfoldable pub add_int64 : ℕ → Buffer → Buffer
add_int64 v b = add_bytes (bytes8 v) b

unfoldable pub set_int32 : ℕ → ℕ → Buffer → Option Buffer
set_int32 pos v b =
    if ltb (pos + 3) (length b)
    then some (
        set
          (set (set (set b pos (v % 256)) (suc pos) (v / 256 % 256)) (suc (suc pos))
            (v / 65536 % 256))
          (suc (suc (suc pos))) (v / 16777216 % 256))
    else none

-- The position of the four bytes, and the buffer with them.
unfoldable pub reserve_int32 : Buffer → ℕ × Buffer
reserve_int32 b = (length b, add_bytes (0 ∷ 0 ∷ 0 ∷ 0 ∷ []) b)

unfoldable pub new_buffer : Buffer
new_buffer = (reserve_int32 []).1

unfoldable pub finish : Buffer → Option Buffer
finish b = let b1 = add_bytes (0 ∷ []) b in set_int32 0 (length b1 % 2 ^ 32) b1

unfoldable pub add_elem_name : ℕ → List ℕ → Buffer → Buffer
add_elem_name kind name b = add_bytes (0 ∷ []) (add_bytes name (add_bytes (kind ∷ []) b))

unfoldable pub add_binary : List ℕ → Buffer → Buffer
add_binary v b = add_bytes v (add_bytes (0 ∷ []) (add_int32 (length v % 2 ^ 32) b))

unfoldable pub add_c_str : List ℕ → Buffer → Buffer
add_c_str v b = add_bytes (0 ∷ []) (add_bytes v b)

unfoldable pub add_str : List ℕ → Buffer → Buffer
add_str v b = add_c_str v (add_int32 ((length v + 1) % 2 ^ 32) b)

unfoldable pub append_string : List ℕ → List ℕ → Buffer → Buffer
append_string k v b = add_str v (add_elem_name 0x02 k b)

unfoldable pub append_binary : List ℕ → List ℕ → Buffer → Buffer
append_binary k v b = add_binary v (add_elem_name 0x05 k b)

unfoldable pub append_int32 : List ℕ → ℕ → Buffer → Buffer
append_int32 k v b = add_int32 v (add_elem_name 0x10 k b)

unfoldable pub append_int64 : List ℕ → ℕ → Buffer → Buffer
append_int64 k v b = add_int64 v (add_elem_name 0x12 k b)

-- A number between -2^31 and 2^31 - 1 takes four bytes.
abbrev pub is_small : ℕ → Bool
is_small v = ltb v (2 ^ 31) || leb (2 ^ 64 - 2 ^ 31) v

unfoldable pub append_int : List ℕ → ℕ → Buffer → Buffer
append_int k v b = if is_small v then append_int32 k (v % 2 ^ 32) b else append_int64 k v b

unfoldable pub append_float64 : List ℕ → ℕ → Buffer → Buffer
append_float64 k bits b = add_int64 bits (add_elem_name 0x01 k b)

unfoldable pub append_bool : List ℕ → Bool → Buffer → Buffer
append_bool k v b =
    let b1 = add_elem_name 0x08 k b in if v then add_bytes (1 ∷ []) b1 else add_bytes (0 ∷ []) b1

unfoldable pub append_start_object : List ℕ → Buffer → ℕ × Buffer
append_start_object k b = reserve_int32 (add_elem_name 0x03 k b)

unfoldable pub append_start_array : List ℕ → Buffer → ℕ × Buffer
append_start_array k b = reserve_int32 (add_elem_name 0x04 k b)

unfoldable pub append_finish_object : ℕ → Buffer → Option Buffer
append_finish_object start b =
    let b1 = add_bytes (0 ∷ []) b in set_int32 start ((length b1 - start) % 2 ^ 32) b1
