-- ===== src/Reporter/Context.antt =====
-- v1/ao/internal/reporter/context.go: trace contexts, and the transaction context that a context
-- shares with its copies. A pointer to a transaction context is its position among those that have
-- been allocated.
pub mod Shared
pub mod Headers
pub mod Begun
mod Runs
use appoptics_apm_go.Base.{
  ℕ, Bool, true, false, if◌then◌else◌, List, [], ◌∷◌, ◌++◌, Option, none, some, length, get_elem?,
  set,
}
use appoptics_apm_go.Base.Options.{◌>>=◌}
use appoptics_apm_go.Base.Slices.{copy}
use appoptics_apm_go.Base.Text.{Text}
use appoptics_apm_go.Reporter.Metadata.{
  OboeMetadata, MdError, init, from_string, is_sampled, set_sampled,
}
use appoptics_apm_go.Reporter.Metadata.Random.{Reads, set_random}

pub record TransactionContext : Type 0 where
  pub name : Text
  pub enabled : Bool

abbrev pub Heap : Type 0
Heap = List TransactionContext

pub record OboeContext : Type 0 where
  pub metadata : OboeMetadata
  pub tx_ctx : ℕ

pub data Context : Type 0 where
  null_context : Context
  oboe_context : OboeContext → Context

-- `&transactionContext{enabled: true}`
abbrev pub enabled_tx : TransactionContext
enabled_tx = record { name = []; enabled = true }

-- The context of new random metadata, or the null context where the reader fails.
unfoldable pub started : Bool → OboeMetadata × Option MdError × Reads → Heap → Context
started sampled (md, some err, left) heap = null_context
started sampled (md, none, left) heap =
    oboe_context (record { metadata = set_sampled sampled md; tx_ctx = length heap })

unfoldable pub new_context : Bool → Reads → Heap → Context × Heap
new_context sampled reads heap =
    (started sampled (set_random init reads) heap, heap ++ (enabled_tx ∷ []))

unfoldable pub new_context_from_metadata_string :
    Text → Heap → (OboeContext × Option MdError) × Heap
new_context_from_metadata_string md_str heap =
    let read = from_string init md_str in
    ((record { metadata = read.0; tx_ctx = length heap }, read.1), heap ++ (enabled_tx ∷ []))

unfoldable pub copy_context : OboeContext → OboeContext
copy_context ctx = record {
  metadata = record init {
    ids = record {
      task_id = copy init.ids.task_id ctx.metadata.ids.task_id;
      op_id = copy init.ids.op_id ctx.metadata.ids.op_id;
    };
    flags = ctx.metadata.flags;
  };
  tx_ctx = ctx.tx_ctx;
}

unfoldable pub context_is_sampled : OboeContext → Bool
context_is_sampled ctx = is_sampled ctx.metadata

unfoldable pub set_context_sampled : Bool → OboeContext → OboeContext
set_context_sampled trace ctx = record ctx { metadata = set_sampled trace ctx.metadata }

-- A write through the pointer.
abbrev pub written :
    (TransactionContext → TransactionContext) → ℕ → Heap → Option TransactionContext → Heap
written change at heap none = heap
written change at heap (some tx) = set heap at (change tx)

unfoldable pub update_tx : (TransactionContext → TransactionContext) → ℕ → Heap → Heap
update_tx change at heap = written change at heap (get_elem? heap at)

unfoldable pub set_enabled : Bool → OboeContext → Heap → Heap
set_enabled enabled ctx heap = update_tx (λ tx. record tx { enabled = enabled }) ctx.tx_ctx heap

unfoldable pub get_enabled : OboeContext → Heap → Option Bool
get_enabled ctx heap = get_elem? heap ctx.tx_ctx >>= λ tx. some tx.enabled

unfoldable pub set_transaction_name : Text → OboeContext → Heap → Heap
set_transaction_name name ctx heap = update_tx (λ tx. record tx { name = name }) ctx.tx_ctx heap

unfoldable pub get_transaction_name : OboeContext → Heap → Option Text
get_transaction_name ctx heap = get_elem? heap ctx.tx_ctx >>= λ tx. some tx.name

unfoldable pub get_version : OboeContext → ℕ
get_version ctx = ctx.metadata.version
