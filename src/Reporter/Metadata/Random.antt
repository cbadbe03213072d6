-- ===== src/Reporter/Metadata/Random.antt =====
-- The random IDs of a new trace and of a new event.
use appoptics_apm_go.Base.{ℕ, zero, suc, List, [], ◌∷◌, Option, none, some}
use appoptics_apm_go.Base.Slices.{copy}
use appoptics_apm_go.Reporter.Metadata.{OboeIds, OboeMetadata, MdError, rand_failed, validate}

-- A random reader: what each of its calls leaves in the slice, or an error.
abbrev pub Reads : Type 0
Reads = List (Option (List ℕ))

-- Leaves the loop without an error, or goes on with one.
abbrev pub tried {ℓ} : {R : Type ℓ} → Option MdError → R → (MdError → R) → R
tried none stop again = stop
tried (some e) stop again = again e

-- `SetRandomTaskID` on the reads to come: the metadata, the error, and the reads that are left.
-- The count is of the tries left; a reader that is used up fails.
unfoldable pub random_task_id_loop :
    ℕ → OboeMetadata → Option MdError → Reads → OboeMetadata × Option MdError × Reads
random_task_id_loop zero md err reads = (md, err, reads)
random_task_id_loop (suc n) md err [] = (md, some rand_failed, [])
random_task_id_loop (suc n) md err (none ∷ reads) = (md, some rand_failed, reads)
random_task_id_loop (suc n) md err (some b ∷ reads) =
    let ids : OboeIds = record { task_id = copy md.ids.task_id b; op_id = md.ids.op_id } in
    let md' = record md { ids = ids } in
    tried (validate ids) (md', none, reads) (λ e. random_task_id_loop n md' (some e) reads)

abbrev pub set_random_task_id : OboeMetadata → Reads → OboeMetadata × Option MdError × Reads
set_random_task_id md reads = random_task_id_loop 2 md none reads

unfoldable pub set_random_op_id : OboeMetadata → Reads → OboeMetadata × Option MdError × Reads
set_random_op_id md [] = (md, some rand_failed, [])
set_random_op_id md (none ∷ reads) = (md, some rand_failed, reads)
set_random_op_id md (some b ∷ reads) = (
  record md { ids = record { task_id = md.ids.task_id; op_id = copy md.ids.op_id b } },
  none,
  reads,
)

abbrev pub op_id_next :
    OboeMetadata × Option MdError × Reads → OboeMetadata × Option MdError × Reads
op_id_next (md, some e, reads) = (md, some e, reads)
op_id_next (md, none, reads) = set_random_op_id md reads

-- `SetRandom`
unfoldable pub set_random : OboeMetadata → Reads → OboeMetadata × Option MdError × Reads
set_random md reads = op_id_next (set_random_task_id md reads)
