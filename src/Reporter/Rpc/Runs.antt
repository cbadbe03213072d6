-- ===== src/Reporter/Rpc/Runs.antt =====
-- Concrete calls: one that the collector first postpones and then redirects, and one that it
-- never accepts.
use package.appoptics_apm_go.Base.{
  ℕ, zero, suc, ◌≡◌, refl, arith, true, false, [], ◌∷◌, All, none, some,
}
use package.appoptics_apm_go.Base.Text.{codes}
use package.appoptics_apm_go.Reporter.Rpc.{
  ResultCode, RpcOutcome, Method, Kind, Round, Conn, Answer, call_failed, response, no_retry,
  invoke_rpc, invoke_from, invoke_round, set_queue_largest, message_len, call, request_size,
  get_msgs_bytes, after_called, result_handled, retried, redirected, reconnected, retry_on_err,
  default_backoff, retry_delay,
}
use package.appoptics_apm_go.Reporter.Rpc.Ends.{invoke_rpc_ends}
use package.appoptics_apm_go.Reporter.Rpc.Counted.{IsDelay, sent_total, invoke_rpc_tally}

abbrev two_events : Kind → Method
two_events kind = record {
  kind = kind;
  service_key = codes "key";
  messages = (1 ∷ []) ∷ (2 ∷ 3 ∷ []) ∷ [];
}

abbrev opened : Conn
opened = record {
  active = true;
  address = codes "a";
  max_req_bytes = 10;
  num_sent = 5;
  num_failed = 0;
  queue_largest = 1;
  waits = [];
}

abbrev answering : Answer → Round
answering answer = record { exiting = false; flushed = false; answer = answer; dialed = true }

-- The collector postpones, a deadline passes, the collector redirects, then takes the messages.
abbrev late_rounds : ℕ → Round
late_rounds zero = answering (response ResultCode.try_later [])
late_rounds (suc zero) = answering (call_failed true)
late_rounds (suc (suc zero)) = answering (response ResultCode.redirect (codes "b"))
late_rounds (suc (suc (suc n))) = answering (response ResultCode.ok [])

abbrev late_end : Conn
late_end = record {
  active = true;
  address = codes "b";
  max_req_bytes = 10;
  num_sent = 7;
  num_failed = 2;
  queue_largest = 2;
  waits = 500 ∷ 750 ∷ 500 ∷ [];
}

late_run :
    invoke_rpc 441 (two_events Kind.post_events) late_rounds opened
    ≡ some (RpcOutcome.sent, late_end)
unfolding invoke_rpc invoke_from invoke_round set_queue_largest message_len call request_size
    get_msgs_bytes after_called result_handled retried redirected reconnected retry_on_err
    default_backoff retry_delay
late_run = refl

-- A ping is not repeated.
ping_run : invoke_rpc 441 (two_events Kind.ping) late_rounds opened ≡ some (no_retry none, opened)
unfolding invoke_rpc invoke_from invoke_round set_queue_largest message_len call request_size
    get_msgs_bytes after_called result_handled retried redirected reconnected retry_on_err
    default_backoff retry_delay
ping_run = refl

invoke_rpc_ends_example :
    (result : RpcOutcome × Conn) × (invoke_rpc 441
        (two_events Kind.post_events)
        (λ i. answering (call_failed true))
        opened
      ≡ some result)
invoke_rpc_ends_example =
    invoke_rpc_ends 441 (two_events Kind.post_events) (λ i. answering (call_failed true)) opened
      (omega arith)

invoke_rpc_tally_example : (7 ≡ sent_total 5 RpcOutcome.sent 2) × All IsDelay (500 ∷ 750 ∷ 500 ∷ [])
unfolding message_len
invoke_rpc_tally_example =
    invoke_rpc_tally 441 (two_events Kind.post_events) late_rounds opened RpcOutcome.sent late_end
      tt late_run
