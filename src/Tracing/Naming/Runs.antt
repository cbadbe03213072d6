-- ===== src/Tracing/Naming/Runs.antt =====
-- Transaction names on concrete requests.
use package.appoptics_apm_go.Base.{◌≡◌, refl, true, false, []}
use package.appoptics_apm_go.Base.Text.{codes}
use package.appoptics_apm_go.Tracing.{TraceHttpSpan}
use package.appoptics_apm_go.Tracing.Naming.{
  is_empty, finalize_txn_name, chosen_name, get_transaction_from_path, prepend_domain_to_txn_name,
}
use package.appoptics_apm_go.Tracing.Naming.Named.{finalize_txn_name_named}

abbrev named_request : TraceHttpSpan
named_request = record {
  span = record {
    transaction = [];
    duration = 0;
    path = codes "/a/b/c";
    status = 200;
    host = codes "h";
    method = codes "GET";
    has_error = false;
  };
  start = 1;
  end_time = 0;
  controller = [];
  action = [];
}

name_of_path :
    (finalize_txn_name [] true [] (codes "layer") named_request [] []).span.transaction
    ≡ codes "h/a/b"
unfolding finalize_txn_name chosen_name get_transaction_from_path prepend_domain_to_txn_name
name_of_path = refl

finalize_txn_name_named_example :
    is_empty (finalize_txn_name [] true [] (codes "layer") named_request [] []).span.transaction
    ≡ false
finalize_txn_name_named_example =
    finalize_txn_name_named [] true [] (codes "layer") named_request [] []
