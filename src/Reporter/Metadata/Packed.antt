-- ===== src/Reporter/Metadata/Packed.antt =====
-- The packed form of well-formed metadata.
use mathlib.Core.List.{append_assoc}
use appoptics_apm_go.Base.{
  ℕ, zero, suc, ◌+◌, ◌≤◌, ◌<◌, ◌≡◌, refl, ap, ◌⊎◌, inl, inr, arith, false, List, [], ◌∷◌, ◌++◌,
  length, length-append, drop, set, All, length-drop, ◌*◌, ◌/◌, ◌-◌, ◌==◌, if◌then◌else◌, ◌∙◌, sym,
}
use appoptics_apm_go.Base.Slices.{copy_at_behind, drop-drop}
use appoptics_apm_go.Base.Text.{text_eq}
use appoptics_apm_go.Reporter.Metadata.{
  OboeMetadata, header_byte, pack, packed, version_of, task_len_of, op_len_of, all_zero_task_id,
}

-- The lengths that the header byte can express.
abbrev pub IsTaskLen : ℕ → Type 0
IsTaskLen n = (n ≡ 4) ⊎ (n ≡ 8) ⊎ (n ≡ 12) ⊎ (n ≡ 20)

abbrev pub IsOpLen : ℕ → Type 0
IsOpLen n = (n ≡ 4) ⊎ (n ≡ 8)

-- Metadata that fits the wire format. `Init` gives lengths of 20 and 8.
pub record IsWellFormed (md : OboeMetadata) : Type 0 where
  pub version_two : md.version ≡ 2
  pub task_len_is : IsTaskLen md.task_len
  pub op_len_is : IsOpLen md.op_len
  pub task_id_len : length md.ids.task_id ≡ md.task_len
  pub op_id_len : length md.ids.op_id ≡ md.op_len
  pub task_id_bytes : All (λ b. b < 256) md.ids.task_id
  pub op_id_bytes : All (λ b. b < 256) md.ids.op_id
  pub flags_byte : md.flags < 256
  pub not_all_zero : text_eq all_zero_task_id md.ids.task_id ≡ false

-- The header byte as `Pack` computes it, the task ID, the operation ID and the flags.
abbrev pub wire : OboeMetadata → List ℕ
wire md =
    header_byte md.version md.task_len md.op_len
    ∷ (md.ids.task_id ++ (md.ids.op_id ++ (md.flags ∷ [])))

abbrev HeaderReads : ℕ → ℕ → Type 0
HeaderReads tl ol =
    (version_of (header_byte 2 tl ol) ≡ 2)
    × (task_len_of (header_byte 2 tl ol) ≡ tl)
    × (op_len_of (header_byte 2 tl ol) ≡ ol)
    × (header_byte 2 tl ol < 256)

-- The header byte names the lengths that it was made from.
pub header_reads : {tl ol : ℕ} → IsTaskLen tl → IsOpLen ol → HeaderReads tl ol
unfolding header_byte task_len_of op_len_of
header_reads (inl a) (inl b) = rw (a, b) (refl, refl, refl, omega arith)
header_reads (inl a) (inr b) = rw (a, b) (refl, refl, refl, omega arith)
header_reads (inr (inl a)) (inl b) = rw (a, b) (refl, refl, refl, omega arith)
header_reads (inr (inl a)) (inr b) = rw (a, b) (refl, refl, refl, omega arith)
header_reads (inr (inr (inl a))) (inl b) = rw (a, b) (refl, refl, refl, omega arith)
header_reads (inr (inr (inl a))) (inr b) = rw (a, b) (refl, refl, refl, omega arith)
header_reads (inr (inr (inr a))) (inl b) = rw (a, b) (refl, refl, refl, omega arith)
header_reads (inr (inr (inr a))) (inr b) = rw (a, b) (refl, refl, refl, omega arith)

set_behind :
    {A : Type 0} (front buf : List A) (v : A) (i : ℕ)
    → length front ≡ i
    → 0 < length buf
    → set (front ++ buf) i v ≡ front ++ (v ∷ drop 1 buf)
set_behind [] [] v i h k = absurd (omega arith)
set_behind [] (x ∷ buf) v zero h k = refl
set_behind [] (x ∷ buf) v (suc i) h k = absurd (omega arith)
set_behind (y ∷ front) buf v zero h k = absurd (omega arith)
set_behind (y ∷ front) buf v (suc i) h k = ap (◌∷◌ y) (set_behind front buf v i (omega arith) k)

pub length-wire :
    {md : OboeMetadata} → IsWellFormed md → length (wire md) ≡ md.task_len + md.op_len + 2
length-wire {md} w = omega (
  arith,
  w.task_id_len,
  w.op_id_len,
  length-append md.ids.task_id (md.ids.op_id ++ (md.flags ∷ [])),
  length-append md.ids.op_id (md.flags ∷ []),
)

layout_tail :
    (task op : List ℕ) (flags b : ℕ) (buf : List ℕ) (req : ℕ)
    → length task + length op + 2 ≡ req
    → (task ++ op) ++ (flags ∷ drop 1 (drop (length op) (drop (length task) buf)))
      ≡ (task ++ (op ++ (flags ∷ []))) ++ drop req (b ∷ buf)
layout_tail task op flags b buf req h = rw (
  drop-drop (length op) (length task) (length task + length op) buf refl,
  drop-drop 1 (length task + length op) (length task + length op + 1) buf refl,
  ← drop-drop (length task + length op + 1) 1 req (b ∷ buf) (omega arith),
  append_assoc task op (flags ∷ drop (length task + length op + 1) buf),
  append_assoc task (op ++ (flags ∷ [])) (drop (length task + length op + 1) buf),
  append_assoc op (flags ∷ []) (drop (length task + length op + 1) buf),
)

-- `Pack` writes the layout at the front of a buffer that has room for it, and leaves the rest.
pub pack-wire :
    {md : OboeMetadata} (buf : List ℕ)
    → IsWellFormed md
    → md.task_len + md.op_len + 2 ≤ length buf
    → pack md buf
      ≡ packed (md.task_len + md.op_len + 2) (wire md ++ drop (md.task_len + md.op_len + 2) buf)
unfolding pack
pack-wire {md} [] w room = absurd (omega arith)
pack-wire {md} (b ∷ buf) w room =
    rw
      (
        copy_at_behind (h ∷ []) buf task 1 (1 + md.task_len) refl (omega (arith, w.task_id_len))
            (omega (arith, w.task_id_len)),
        copy_at_behind (h ∷ task) (drop (length task) buf) op (1 + md.task_len)
            (1 + md.task_len + md.op_len) (omega (arith, w.task_id_len))
            (omega (arith, w.op_id_len))
            (omega (arith, w.task_id_len, w.op_id_len, length-drop (length task) buf)),
        ← append_assoc task op (drop (length op) (drop (length task) buf)),
        set_behind (h ∷ (task ++ op)) (drop (length op) (drop (length task) buf)) md.flags
            (1 + md.task_len + md.op_len)
            (omega (arith, w.task_id_len, w.op_id_len, length-append task op))
            (omega (
              arith,
              length-drop (length op) (drop (length task) buf),
              length-drop (length task) buf,
              w.task_id_len,
              w.op_id_len,
            )),
      )
      (rw (layout_tail task op md.flags b buf req (omega (arith, w.task_id_len, w.op_id_len)))
        (ground arith))
  where
    h : ℕ
    h = header_byte md.version md.task_len md.op_len

    task : List ℕ
    task = md.ids.task_id

    op : List ℕ
    op = md.ids.op_id

    req : ℕ
    req = md.task_len + md.op_len + 2

-- The header byte that the comment of `Pack` draws: the version in the bits from 4, 1 less than the
-- quarter of the operation ID's length in bit 3, no options in bit 2, and in the bits 0 and 1 the
-- numbers 0 to 3 for a task ID of 4, 8, 12 and 20 bytes.
abbrev pub drawn_header : ℕ → ℕ → ℕ → ℕ
drawn_header version task_len op_len =
    version * 16 + (op_len / 4 - 1) * 8 + (if task_len == 20 then 3 else task_len / 4 - 1)

header_drawn : {tl ol : ℕ} → IsTaskLen tl → IsOpLen ol → header_byte 2 tl ol ≡ drawn_header 2 tl ol
unfolding header_byte
header_drawn (inl a) (inl b) = rw (a, b) refl
header_drawn (inl a) (inr b) = rw (a, b) refl
header_drawn (inr (inl a)) (inl b) = rw (a, b) refl
header_drawn (inr (inl a)) (inr b) = rw (a, b) refl
header_drawn (inr (inr (inl a))) (inl b) = rw (a, b) refl
header_drawn (inr (inr (inl a))) (inr b) = rw (a, b) refl
header_drawn (inr (inr (inr a))) (inl b) = rw (a, b) refl
header_drawn (inr (inr (inr a))) (inr b) = rw (a, b) refl

abbrev pub layout : OboeMetadata → List ℕ
layout md =
    drawn_header md.version md.task_len md.op_len
    ∷ (md.ids.task_id ++ (md.ids.op_id ++ (md.flags ∷ [])))

-- `Pack` writes the drawn header byte, the task ID, the operation ID and the flags of well-formed
-- metadata at the front of a buffer that has room for them, and leaves the rest of the buffer.
pub pack-layout :
    {md : OboeMetadata} (buf : List ℕ)
    → IsWellFormed md
    → md.task_len + md.op_len + 2 ≤ length buf
    → pack md buf
      ≡ packed (md.task_len + md.op_len + 2) (layout md ++ drop (md.task_len + md.op_len + 2) buf)
pack-layout {md} buf w room =
    pack-wire buf w room
    ∙ ap
        (λ h. packed (md.task_len + md.op_len + 2) (
          (h ∷ (md.ids.task_id ++ (md.ids.op_id ++ (md.flags ∷ []))))
          ++ drop (md.task_len + md.op_len + 2) buf))
        (ap (λ v. header_byte v md.task_len md.op_len) w.version_two
          ∙ header_drawn w.task_len_is w.op_len_is
          ∙ ap (λ v. drawn_header v md.task_len md.op_len) (sym w.version_two))
