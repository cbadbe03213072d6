-- ===== src/Reporter/Context/Runs.antt =====
-- Concrete contexts, and the theorems at concrete inputs.
use appoptics_apm_go.Base.{◌≡◌, refl, arith, true, false, [], ◌∷◌, some, replicate}
use appoptics_apm_go.Base.Hex.{hex_decode, hex_encode, to_upper, from_hex_char}
use appoptics_apm_go.Base.Text.{codes}
use appoptics_apm_go.Reporter.Metadata.{
  from_string, unpack, task_len_of, op_len_of, validate, string, to_string, pack, header_byte,
}
use appoptics_apm_go.Reporter.Context.{
  OboeContext, Heap, enabled_tx, copy_context, new_context_from_metadata_string, set_enabled,
  get_enabled, set_transaction_name, get_transaction_name,
}
use appoptics_apm_go.Reporter.Context.Shared.{copy_shares}

abbrev context : OboeContext
context = record {
  metadata = record {
    version = 2;
    ids = record { task_id = replicate 20 0xab; op_id = replicate 8 0x01 };
    task_len = 20;
    op_len = 8;
    flags = 1;
  };
  tx_ctx = 0;
}

abbrev heap : Heap
heap = enabled_tx ∷ enabled_tx ∷ []

copy_shares_example :
    (get_enabled context (set_enabled false (copy_context context) heap) ≡ some false)
    × (get_transaction_name context (set_enabled false (copy_context context) heap) ≡ some [])
    × (get_transaction_name context (set_transaction_name (codes "n") (copy_context context) heap)
        ≡ some (codes "n"))
    × (get_enabled context (set_transaction_name (codes "n") (copy_context context) heap)
        ≡ some true)
    × (get_enabled (record context { tx_ctx = 1 }) (set_enabled false (copy_context context) heap)
        ≡ get_enabled (record context { tx_ctx = 1 }) heap)
    × (get_transaction_name
          (record context { tx_ctx = 1 })
          (set_transaction_name (codes "n") (copy_context context) heap)
        ≡ get_transaction_name (record context { tx_ctx = 1 }) heap)
copy_shares_example =
    copy_shares context (record context { tx_ctx = 1 }) heap enabled_tx false (codes "n") refl
      (λ e. ground arith)

-- The context of an X-Trace ID with a task ID of 4 bytes, and the ID that its copy prints.
abbrev short_context : OboeContext
short_context = (new_context_from_metadata_string (codes "28ABABABAB010101010101010101") []).0.0

short_copy :
    (string short_context.metadata ≡ codes "28ABABABAB010101010101010101")
    × (string (copy_context short_context).metadata
        ≡ codes "2BABABABAB00000000000000000000000000000000010101010101010101")
unfolding new_context_from_metadata_string copy_context from_string hex_decode from_hex_char unpack
    task_len_of op_len_of validate string to_string pack header_byte hex_encode to_upper
short_copy = (refl, refl)
