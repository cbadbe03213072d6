-- ===== src/Reporter/Metadata/Unpacked.antt =====
-- `Unpack` on what `Pack` wrote, and on any bytes.
use mathlib.Core.List.{append_assoc}
use appoptics_apm_go.Base.{
  ℕ, zero, suc, ◌+◌, ◌≤◌, ◌<◌, ◌≡◌, sym, arith, List, [], ◌∷◌, ◌++◌, none, length, drop,
  take-append, drop-append, length-take, length-drop, length-append, All, All-take, All-drop,
}
use mathlib.Core.Path.{subst}
use appoptics_apm_go.Base.Bits.{bit_and_mask, bit_and_eight}
use appoptics_apm_go.Reporter.Metadata.{
  OboeMetadata, unpack, unpacked, version_of, task_len_of, op_len_of, byte_at, validate,
}
use appoptics_apm_go.Reporter.Metadata.Packed.{IsTaskLen, IsOpLen, IsWellFormed, wire, header_reads}

byte_at_behind :
    (front : List ℕ) (x : ℕ) (rest : List ℕ) (i : ℕ)
    → length front ≡ i
    → byte_at (front ++ (x ∷ rest)) i ≡ x
byte_at_behind front x rest i h = rw (drop-append i front (x ∷ rest) h, byte_at)

-- `Unpack` reads back well-formed metadata from its layout, whatever follows it.
pub unpack-wire :
    {md : OboeMetadata} (md0 : OboeMetadata) (rest : List ℕ)
    → IsWellFormed md
    → unpack md0 (wire md ++ rest) ≡ (md, none)
unfolding unpack
unpack-wire {md} md0 rest w =
    let (v, t, o, _) = header_reads w.task_len_is w.op_len_is in
    rw
      (
        append_assoc task (op ++ (md.flags ∷ [])) rest,
        append_assoc op (md.flags ∷ []) rest,
        w.version_two,
        v,
        t,
        o,
        take-append md.task_len task (op ++ (md.flags ∷ rest)) w.task_id_len,
        drop-append md.task_len task (op ++ (md.flags ∷ rest)) w.task_id_len,
        take-append md.op_len op (md.flags ∷ rest) w.op_id_len,
        ← append_assoc task op (md.flags ∷ rest),
        byte_at_behind (task ++ op) md.flags rest (md.task_len + md.op_len)
            (omega (arith, length-append task op, w.task_id_len, w.op_id_len)),
      )
      (ground (
        arith,
        length-append (task ++ op) (md.flags ∷ rest),
        length-append task op,
        w.task_id_len,
        w.op_id_len,
      ))
  where
    task : List ℕ
    task = md.ids.task_id

    op : List ℕ
    op = md.ids.op_id

task_len_of-IsTaskLen : (flag : ℕ) → IsTaskLen (task_len_of flag)
unfolding task_len_of
task_len_of-IsTaskLen flag = ground (arith, bit_and_mask 2 flag)

op_len_of-IsOpLen : (flag : ℕ) → IsOpLen (op_len_of flag)
unfolding op_len_of
op_len_of-IsOpLen flag = ground (arith, bit_and_eight flag)

byte_at-lt : (xs : List ℕ) (i : ℕ) → All (λ b. b < 256) xs → byte_at xs i < 256
byte_at-lt [] zero h = omega arith
byte_at-lt [] (suc i) h = omega arith
byte_at-lt (x ∷ xs) zero h = h.0
byte_at-lt (x ∷ xs) (suc i) h = byte_at-lt xs i h.1

-- What an unpacking without an error has checked, and what it stores.
unpack_accepts :
    (md0 md : OboeMetadata) (flag : ℕ) (rest : List ℕ)
    → unpack md0 (flag ∷ rest) ≡ (md, none)
    → (version_of flag ≡ 2)
      × (task_len_of flag + op_len_of flag + 2 ≤ suc (length rest))
      × (unpacked flag rest ≡ md)
unfolding unpack
unpack_accepts md0 md flag rest e = ground arith

unpacked-IsWellFormed :
    (flag : ℕ) (rest : List ℕ)
    → All (λ b. b < 256) rest
    → version_of flag ≡ 2
    → task_len_of flag + op_len_of flag + 2 ≤ suc (length rest)
    → validate (unpacked flag rest).ids ≡ none
    → IsWellFormed (unpacked flag rest)
unfolding validate
unpacked-IsWellFormed flag rest hs v room ok =
    let tl = task_len_of flag in
    let ol = op_len_of flag in
    record {
      version_two = v;
      task_len_is = task_len_of-IsTaskLen flag;
      op_len_is = op_len_of-IsOpLen flag;
      task_id_len = omega (arith, length-take tl rest);
      op_id_len = omega (arith, length-take ol (drop tl rest), length-drop tl rest);
      task_id_bytes = All-take _ tl rest hs;
      op_id_bytes = All-take _ ol (drop tl rest) (All-drop _ tl rest hs);
      flags_byte = byte_at-lt rest (tl + ol) hs;
      not_all_zero = ground arith;
    }

-- What `Unpack` accepts and `validate` lets pass is well formed, for any bytes.
pub unpack-IsWellFormed :
    (md0 md : OboeMetadata) (bytes : List ℕ)
    → All (λ b. b < 256) bytes
    → unpack md0 bytes ≡ (md, none)
    → validate md.ids ≡ none
    → IsWellFormed md
unpack-IsWellFormed md0 md [] h e v = unfold unpack in cc
unpack-IsWellFormed md0 md (flag ∷ rest) (h, hs) e ok =
    let (v, room, same) = unpack_accepts md0 md flag rest e in
    subst IsWellFormed same (
      unpacked-IsWellFormed flag rest hs v room
        (subst (λ (m : OboeMetadata). validate m.ids ≡ none) (sym same) ok))
