-- ===== src/Reporter/Rpc.antt =====
-- v1/ao/internal/reporter/reporter_grpc.go and methods.go: an RPC call with its retries,
-- redirections and reconnections. What the world does in a round of the loop (the collector's
-- answer, a dial, the closing of channels) is an argument.
pub mod Ends
pub mod Counted
mod Runs
use package.appoptics_apm_go.Base.{
  ℕ, zero, suc, ◌+◌, ◌-◌, ◌*◌, ◌/◌, ◌%◌, ◌^◌, Bool, true, false, not, ◌&&◌, List, [], ◌∷◌, ◌++◌,
  Option, none, some, ltb, ◌==◌, if◌then◌else◌, length,
}
use package.appoptics_apm_go.Base.Text.{Text}

-- The codes of the generated stubs, and those that they do not know.
pub data ResultCode : Type 0 where
  ok try_later invalid_api_key limit_exceeded redirect : ResultCode
  other_code : ℕ → ResultCode

-- What `Call` returns: an error, by whether its status is a passed deadline or a cancellation, or
-- the result code and the argument of the response.
pub data Answer : Type 0 where
  call_failed : (is_stale : Bool) → Answer
  response : ResultCode → Text → Answer

-- The errors of a round.
pub data RoundError : Type 0 where
  conn_stale request_too_big call_error : RoundError

pub data RpcOutcome : Type 0 where
  sent reporter_exiting invalid_service_key too_many_redirections give_up_after_retries : RpcOutcome
  no_retry : Option RoundError → RpcOutcome

pub data Kind : Type 0 where
  post_events post_metrics post_status get_settings ping : Kind

pub record Method : Type 0 where
  pub kind : Kind
  pub service_key : Text
  pub messages : List (List ℕ)

unfoldable pub get_msgs_bytes : List (List ℕ) → ℕ
get_msgs_bytes [] = 0
get_msgs_bytes (msg ∷ msgs) = length msg + get_msgs_bytes msgs

unfoldable pub message_len : Method → ℕ
message_len m = elim m.kind [
  | post_events ↦ length m.messages
  | post_metrics ↦ length m.messages
  | post_status ↦ length m.messages
  | get_settings ↦ 0
  | ping ↦ 0
]

unfoldable pub request_size : Method → ℕ
request_size m = elim m.kind [
  | post_events ↦ get_msgs_bytes m.messages
  | post_metrics ↦ get_msgs_bytes m.messages
  | post_status ↦ get_msgs_bytes m.messages
  | get_settings ↦ 0
  | ping ↦ 0
]

abbrev pub is_too_big : Option RoundError → Bool
is_too_big none = false
is_too_big (some RoundError.conn_stale) = false
is_too_big (some RoundError.request_too_big) = true
is_too_big (some RoundError.call_error) = false

unfoldable pub retry_on_err : Kind → Option RoundError → Bool
retry_on_err Kind.post_events err = not (is_too_big err)
retry_on_err Kind.post_metrics err = not (is_too_big err)
retry_on_err Kind.post_status err = not (is_too_big err)
retry_on_err Kind.get_settings err = true
retry_on_err Kind.ping err = false

-- What the world does in one round.
pub record Round : Type 0 where
  pub exiting : Bool
  pub flushed : Bool
  pub answer : Answer
  pub dialed : Bool

-- The connection, with the statistics of its queue and the waits so far, in milliseconds.
pub record Conn : Type 0 where
  pub active : Bool
  pub address : Text
  pub max_req_bytes : ℕ
  pub num_sent : ℕ
  pub num_failed : ℕ
  pub queue_largest : ℕ
  pub waits : List ℕ

-- `SetQueueLargest`
unfoldable pub set_queue_largest : ℕ → Conn → Conn
set_queue_largest count c =
    if ltb c.queue_largest count then record c { queue_largest = count } else c

pub record Loop : Type 0 where
  pub redirects : ℕ
  pub fails_num : ℕ
  pub retries_num : ℕ

pub data RoundStep : Type 0 where
  done : RpcOutcome → Conn → RoundStep
  again : Conn → Loop → RoundStep

abbrev pub grpc_max_retries : ℕ
grpc_max_retries = 20

abbrev pub grpc_redirect_max : ℕ
grpc_redirect_max = 20

abbrev pub grpc_retry_delay_max : ℕ
grpc_retry_delay_max = 60

-- `int(500 * math.Pow(1.5, retries - 1))`, which `float64` holds exactly up to 20 retries.
unfoldable pub retry_delay : ℕ → ℕ
retry_delay retries =
    let delay = 500 * 3 ^ (retries - 1) / 2 ^ (retries - 1) in
    if ltb (grpc_retry_delay_max * 1000) delay then grpc_retry_delay_max * 1000 else delay

-- `none` where it gives up, and otherwise the wait.
unfoldable pub default_backoff : ℕ → Option ℕ
default_backoff retries = if ltb grpc_max_retries retries then none else some (retry_delay retries)

-- The call of an active connection: its error, or the code and the argument of the response.
pub data CallResult : Type 0 where
  called_err : RoundError → CallResult
  called_ok : ResultCode → Text → CallResult

abbrev pub of_answer : Answer → CallResult
of_answer (call_failed true) = called_err RoundError.conn_stale
of_answer (call_failed false) = called_err RoundError.call_error
of_answer (response code arg) = called_ok code arg

abbrev pub is_empty_text : Text → Bool
is_empty_text [] = true
is_empty_text (c ∷ s) = false

-- Without a service key the call is skipped, and the method's response is the one it was made
-- with, of code OK.
unfoldable pub call : Method → Conn → Round → CallResult
call m c round =
    if not c.active
    then called_err RoundError.conn_stale
    else if ltb c.max_req_bytes (request_size m)
    then called_err RoundError.request_too_big
    else if is_empty_text m.service_key
    then called_ok ResultCode.ok []
    else of_answer round.answer

-- A stale call makes the connection inactive.
abbrev pub after_call : CallResult → Conn → Conn
after_call (called_err RoundError.conn_stale) c = record c { active = false }
after_call (called_err RoundError.request_too_big) c = c
after_call (called_err RoundError.call_error) c = c
after_call (called_ok code arg) c = c

-- `reconnect`: a dial that succeeds makes the connection active.
unfoldable pub reconnected : Round → Conn → Conn
reconnected round c = if not c.active && round.dialed then record c { active = true } else c

-- `NumSentAdd` and `NumFailedAdd`; the counters are `int64`.
abbrev pub num_sent_add : ℕ → Conn → Conn
num_sent_add n c = record c { num_sent = (c.num_sent + n) % 2 ^ 64 }

abbrev pub num_failed_add : ℕ → Conn → Conn
num_failed_add n c = record c { num_failed = (c.num_failed + n) % 2 ^ 64 }

-- The end of a round: the reconnection, the question whether to retry, and the wait.
abbrev pub backed_off : Option ℕ → Conn → Loop → RoundStep
backed_off none c loop = done RpcOutcome.give_up_after_retries c
backed_off (some wait) c loop = again (record c { waits = c.waits ++ (wait ∷ []) }) loop

unfoldable pub retried : Method → Round → Option RoundError → Conn → Loop → RoundStep
retried m round err c loop =
    let c = reconnected round c in
    let loop = record loop { retries_num = loop.retries_num + 1 } in
    if not (retry_on_err m.kind err)
    then done (RpcOutcome.no_retry err) c
    else backed_off (default_backoff loop.retries_num) c loop

-- The redirection to `arg`; a target that is empty is only logged.
unfoldable pub redirected : Method → Round → Text → Conn → Loop → RoundStep
redirected m round arg c loop =
    let loop = record loop { redirects = loop.redirects + 1 } in
    if ltb grpc_redirect_max loop.redirects
    then done RpcOutcome.too_many_redirections c
    else if is_empty_text arg
    then retried m round none c loop
    else retried m round none (record c { address = arg; active = false })
        (record loop { retries_num = 0 })

unfoldable pub result_handled : Method → Round → ResultCode → Text → Conn → Loop → RoundStep
result_handled m round ResultCode.ok arg c loop =
    done RpcOutcome.sent (num_sent_add (message_len m) c)
result_handled m round ResultCode.try_later arg c loop =
    retried m round none (num_failed_add (message_len m) c) loop
result_handled m round ResultCode.limit_exceeded arg c loop =
    retried m round none (num_failed_add (message_len m) c) loop
result_handled m round ResultCode.invalid_api_key arg c loop = done RpcOutcome.invalid_service_key c
result_handled m round ResultCode.redirect arg c loop = redirected m round arg c loop
result_handled m round (other_code n) arg c loop = retried m round none c loop

unfoldable pub after_called : Method → Round → CallResult → Conn → Loop → RoundStep
after_called m round (called_err err) c loop =
    retried m round (some err) c (record loop { fails_num = loop.fails_num + 1 })
after_called m round (called_ok code arg) c loop =
    result_handled m round code arg c (record loop { fails_num = 0 })

-- One round of the loop of `InvokeRPC`.
unfoldable pub invoke_round : Method → Round → Conn → Loop → RoundStep
invoke_round m round c loop =
    let called = call m c round in
    if round.exiting && round.flushed
    then done RpcOutcome.reporter_exiting c
    else after_called m round called (after_call called c) loop

abbrev pub after_step :
    RoundStep → (Conn → Loop → Option (RpcOutcome × Conn)) → Option (RpcOutcome × Conn)
after_step (done outcome c) next = some (outcome, c)
after_step (again c loop) next = next c loop

unfoldable pub invoke_from : ℕ → Method → (ℕ → Round) → ℕ → Conn → Loop → Option (RpcOutcome × Conn)
invoke_from zero m rounds i c loop = none
invoke_from (suc fuel) m rounds i c loop =
    after_step (invoke_round m (rounds i) c loop) λ c loop. invoke_from fuel m rounds (i + 1) c loop

unfoldable pub invoke_rpc : ℕ → Method → (ℕ → Round) → Conn → Option (RpcOutcome × Conn)
invoke_rpc fuel m rounds c =
    invoke_from fuel m rounds 0 (set_queue_largest (message_len m) c)
      (record { redirects = 0; fails_num = 0; retries_num = 0 })
