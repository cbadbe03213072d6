-- ===== src/Reporter/Metadata/Fresh.antt =====
-- Random IDs make well-formed metadata.
use appoptics_apm_go.Base.{
  ℕ, zero, suc, ◌<◌, ◌≡◌, ap, arith, List, [], ◌∷◌, Option, none, some, length, take, drop, All,
  All-append, All-take, All-drop, length-append, length-take, length-drop, inl, inr, Option-cases,
}
use mathlib.Core.Path.{subst}
use appoptics_apm_go.Base.Slices.{copy}
use appoptics_apm_go.Reporter.Metadata.{OboeIds, OboeMetadata, MdError, rand_failed, validate, init}
use appoptics_apm_go.Reporter.Metadata.Random.{
  Reads, op_id_next, random_task_id_loop, set_random_task_id, set_random_op_id, set_random,
}
use appoptics_apm_go.Reporter.Metadata.Packed.{IsWellFormed}

length-copy : (dst src : List ℕ) → length (copy dst src) ≡ length dst
length-copy dst src = omega (
  arith,
  length-append (take (length dst) src) (drop (length src) dst),
  length-take (length dst) src,
  length-drop (length src) dst,
)

All-copy : (P : ℕ → Type 0) (dst src : List ℕ) → All P dst → All P src → All P (copy dst src)
All-copy P dst src h k =
    All-append P (take (length dst) src) (drop (length src) dst) (All-take P (length dst) src k)
      (All-drop P (length src) dst h)

-- The reader yields bytes.
abbrev pub AreBytes : Reads → Type 0
AreBytes [] = Unit
AreBytes (none ∷ reads) = AreBytes reads
AreBytes (some b ∷ reads) = All (λ x. x < 256) b × AreBytes reads

-- What a try has to work with: fresh IDs of the full lengths.
record IsFresh (md : OboeMetadata) : Type 0 where
  version_two : md.version ≡ 2
  task_twenty : md.task_len ≡ 20
  op_eight : md.op_len ≡ 8
  task_id_len : length md.ids.task_id ≡ 20
  op_id_len : length md.ids.op_id ≡ 8
  task_id_bytes : All (λ b. b < 256) md.ids.task_id
  op_id_bytes : All (λ b. b < 256) md.ids.op_id
  flags_zero : md.flags ≡ 0

task_id-IsFresh :
    (md : OboeMetadata) (b : List ℕ)
    → IsFresh md
    → All (λ x. x < 256) b
    → IsFresh (record md { ids = record { task_id = copy md.ids.task_id b; op_id = md.ids.op_id } })
task_id-IsFresh md b f h = record {
  version_two = f.version_two;
  task_twenty = f.task_twenty;
  op_eight = f.op_eight;
  task_id_len = omega (arith, length-copy md.ids.task_id b, f.task_id_len);
  op_id_len = f.op_id_len;
  task_id_bytes = All-copy (λ (x : ℕ). x < 256) md.ids.task_id b f.task_id_bytes h;
  op_id_bytes = f.op_id_bytes;
  flags_zero = f.flags_zero;
}

abbrev Good : OboeMetadata × Option MdError × Reads → Type 0
Good (md, none, reads) = IsFresh md × (validate md.ids ≡ none) × AreBytes reads
Good (md, some e, reads) = Unit

-- One try, on what the loop does with the tries that are left.
try-Good :
    (n : ℕ) (md : OboeMetadata) (b : List ℕ) (reads : Reads)
    → IsFresh md
    → All (λ x. x < 256) b
    → AreBytes reads
    → ((x : MdError) (m : OboeMetadata) → IsFresh m → Good (random_task_id_loop n m (some x) reads))
    → (e : MdError) → Good (random_task_id_loop (suc n) md (some e) (some b ∷ reads))
unfolding random_task_id_loop
try-Good n md b reads f hb h rest e =
    let ids : OboeIds = record { task_id = copy md.ids.task_id b; op_id = md.ids.op_id } in
    elim (Option-cases (validate ids)) [
      | inl fine ↦ rw fine (task_id-IsFresh md b f hb, fine, h)
      | inr (x, bad) ↦ rw bad (rest x (record md { ids = ids }) (task_id-IsFresh md b f hb))
    ]

random_task_id_loop-Good :
    (n : ℕ) (md : OboeMetadata) (e : MdError) (reads : Reads)
    → IsFresh md
    → AreBytes reads
    → Good (random_task_id_loop n md (some e) reads)
unfolding random_task_id_loop
random_task_id_loop-Good zero md e reads f h = tt
random_task_id_loop-Good (suc n) md e [] f h = tt
random_task_id_loop-Good (suc n) md e (none ∷ reads) f h = tt
random_task_id_loop-Good (suc n) md e (some b ∷ reads) f (hb, h) =
    try-Good n md b reads f hb h (λ x m g. random_task_id_loop-Good n m x reads g h) e

init-IsFresh : IsFresh init
init-IsFresh = omega arith

task_id-Good :
    (md : OboeMetadata) (reads : Reads)
    → IsFresh md
    → AreBytes reads
    → Good (set_random_task_id md reads)
unfolding random_task_id_loop
task_id-Good md [] f h = tt
task_id-Good md (none ∷ reads) f h = tt
task_id-Good md (some b ∷ reads) f (hb, h) =
    try-Good 1 md b reads f hb h (λ x m g. random_task_id_loop-Good 1 m x reads g h) rand_failed

op_id-IsWellFormed :
    (md md' : OboeMetadata) (reads left : Reads)
    → IsFresh md
    → validate md.ids ≡ none
    → AreBytes reads
    → set_random_op_id md reads ≡ (md', none, left)
    → IsWellFormed md' × (md'.flags ≡ 0)
unfolding set_random_op_id validate
op_id-IsWellFormed md md' [] left f v h e = ground arith
op_id-IsWellFormed md md' (none ∷ reads) left f v h e = ground arith
op_id-IsWellFormed md md' (some b ∷ reads) left f v (hb, h) e =
    subst (λ (m : OboeMetadata). IsWellFormed m × (m.flags ≡ 0))
      (ap (λ (t : OboeMetadata × Option MdError × Reads). t.0) e)
      (
        record {
          version_two = f.version_two;
          task_len_is = omega (arith, f.task_twenty);
          op_len_is = omega (arith, f.op_eight);
          task_id_len = omega (arith, f.task_id_len, f.task_twenty);
          op_id_len = omega (arith, length-copy md.ids.op_id b, f.op_id_len, f.op_eight);
          task_id_bytes = f.task_id_bytes;
          op_id_bytes = All-copy (λ (x : ℕ). x < 256) md.ids.op_id b f.op_id_bytes hb;
          flags_byte = omega (arith, f.flags_zero);
          not_all_zero = ground arith;
        },
        f.flags_zero,
      )

next-IsWellFormed :
    (r : OboeMetadata × Option MdError × Reads) (md : OboeMetadata) (left : Reads)
    → Good r
    → op_id_next r ≡ (md, none, left)
    → IsWellFormed md × (md.flags ≡ 0)
next-IsWellFormed (m, some x, reads) md left g e = ground arith
next-IsWellFormed (m, none, reads) md left (f, v, h) e = op_id-IsWellFormed m md reads left f v h e

-- `SetRandom` on a fresh struct, with a reader that yields bytes: where it returns no error, the
-- metadata is well formed and not sampled.
pub set_random-IsWellFormed :
    (reads left : Reads) (md : OboeMetadata)
    → AreBytes reads
    → set_random init reads ≡ (md, none, left)
    → IsWellFormed md × (md.flags ≡ 0)
unfolding set_random
set_random-IsWellFormed reads left md h e =
    next-IsWellFormed (set_random_task_id init reads) md left
      (task_id-Good init reads init-IsFresh h) e
