-- ===== src/Reporter/Context/Shared.antt =====
-- What copies of a context share, and what they keep.
use appoptics_apm_go.Base.{
  ℕ, zero, suc, ◌≡◌, ◌≢◌, refl, ap, sym, ◌∙◌, Bool, arith, [], ◌∷◌, Option, some, get_elem?, set,
}
use appoptics_apm_go.Base.Options.{◌>>=◌}
use appoptics_apm_go.Base.Slices.{copy_full}
use appoptics_apm_go.Base.Text.{Text}
use appoptics_apm_go.Reporter.Metadata.{init}
use appoptics_apm_go.Reporter.Metadata.Packed.{IsWellFormed}
use appoptics_apm_go.Reporter.Context.{
  TransactionContext, Heap, OboeContext, copy_context, written, update_tx, set_enabled, get_enabled,
  set_transaction_name, get_transaction_name,
}

get-set :
    (heap : Heap) (at : ℕ) (tx old : TransactionContext)
    → get_elem? heap at ≡ some old
    → get_elem? (set heap at tx) at ≡ some tx
get-set [] at tx old e = absurd (ground arith)
get-set (x ∷ heap) zero tx old e = refl
get-set (x ∷ heap) (suc at) tx old e = get-set heap at tx old e

get-set_other :
    (heap : Heap) (at other : ℕ) (tx : TransactionContext)
    → at ≢ other
    → get_elem? (set heap at tx) other ≡ get_elem? heap other
get-set_other [] at other tx h = refl
get-set_other (x ∷ heap) zero zero tx h = absurd (h refl)
get-set_other (x ∷ heap) zero (suc other) tx h = refl
get-set_other (x ∷ heap) (suc at) zero tx h = refl
get-set_other (x ∷ heap) (suc at) (suc other) tx h =
    get-set_other heap at other tx (λ e. h (ap suc e))

update_tx-at :
    (change : TransactionContext → TransactionContext) (at : ℕ) (heap : Heap)
    (tx : TransactionContext)
    → get_elem? heap at ≡ some tx
    → get_elem? (update_tx change at heap) at ≡ some (change tx)
unfolding update_tx
update_tx-at change at heap tx e =
    ap (λ (o : Option TransactionContext). get_elem? (written change at heap o) at) e
    ∙ get-set heap at (change tx) tx e

update_tx-other :
    (change : TransactionContext → TransactionContext) (at other : ℕ) (heap : Heap)
    (tx : TransactionContext)
    → get_elem? heap at ≡ some tx
    → at ≢ other
    → get_elem? (update_tx change at heap) other ≡ get_elem? heap other
unfolding update_tx
update_tx-other change at other heap tx e h =
    ap (λ (o : Option TransactionContext). get_elem? (written change at heap o) other) e
    ∙ get-set_other heap at other (change tx) h

-- What is set on a copy is read from the original, and from no context of another transaction; the
-- enabled flag and the name do not disturb each other.
pub copy_shares :
    (ctx other : OboeContext) (heap : Heap) (tx : TransactionContext) (enabled : Bool) (name : Text)
    → get_elem? heap ctx.tx_ctx ≡ some tx
    → ctx.tx_ctx ≢ other.tx_ctx
    → (get_enabled ctx (set_enabled enabled (copy_context ctx) heap) ≡ some enabled)
      × (get_transaction_name ctx (set_enabled enabled (copy_context ctx) heap) ≡ some tx.name)
      × (get_transaction_name ctx (set_transaction_name name (copy_context ctx) heap) ≡ some name)
      × (get_enabled ctx (set_transaction_name name (copy_context ctx) heap) ≡ some tx.enabled)
      × (get_enabled other (set_enabled enabled (copy_context ctx) heap) ≡ get_enabled other heap)
      × (get_transaction_name other (set_transaction_name name (copy_context ctx) heap)
          ≡ get_transaction_name other heap)
unfolding get_enabled set_enabled get_transaction_name set_transaction_name copy_context
copy_shares ctx other heap tx enabled name e apart = (
  ap (λ (o : Option TransactionContext). o >>= λ t. some t.enabled)
      (update_tx-at _ ctx.tx_ctx heap tx e),
  ap (λ (o : Option TransactionContext). o >>= λ t. some t.name)
      (update_tx-at _ ctx.tx_ctx heap tx e),
  ap (λ (o : Option TransactionContext). o >>= λ t. some t.name)
      (update_tx-at _ ctx.tx_ctx heap tx e),
  ap (λ (o : Option TransactionContext). o >>= λ t. some t.enabled)
      (update_tx-at _ ctx.tx_ctx heap tx e),
  ap (λ (o : Option TransactionContext). o >>= λ t. some t.enabled)
      (update_tx-other _ ctx.tx_ctx other.tx_ctx heap tx e apart),
  ap (λ (o : Option TransactionContext). o >>= λ t. some t.name)
      (update_tx-other _ ctx.tx_ctx other.tx_ctx heap tx e apart),
)

-- A copy of a context whose IDs have the lengths of a new trace is the context again.
pub copy_context_lem :
    (ctx : OboeContext)
    → IsWellFormed ctx.metadata
    → ctx.metadata.task_len ≡ 20
    → ctx.metadata.op_len ≡ 8
    → copy_context ctx ≡ ctx
unfolding copy_context
copy_context_lem ctx h twenty eight =
    rw
      (
        copy_full init.ids.task_id ctx.metadata.ids.task_id (h.task_id_len ∙ twenty),
        copy_full init.ids.op_id ctx.metadata.ids.op_id (h.op_id_len ∙ eight),
      )
      same
  where
    with_op : ℕ → OboeContext
    with_op n = record ctx { metadata = record ctx.metadata { op_len = n } }

    with_lens : ℕ → OboeContext
    with_lens n = record ctx { metadata = record ctx.metadata { task_len = n; op_len = 8 } }

    with_version : ℕ → OboeContext
    with_version n = record ctx {
      metadata = record ctx.metadata { version = n; task_len = 20; op_len = 8 };
    }

    same : with_version 2 ≡ ctx
    same = ap with_version (sym h.version_two) ∙ ap with_lens (sym twenty) ∙ ap with_op (sym eight)
