-- ===== src/Reporter/Rpc/Ends.antt =====
-- `InvokeRPC` ends, whatever the collector answers.
use package.appoptics_apm_go.Base.{
  ℕ, zero, suc, ◌+◌, ◌-◌, ◌*◌, ◌≤◌, ◌<◌, ◌≡◌, refl, arith, false, not, ◌&&◌, Option, none, some,
  ltb, if_both,
}
use package.appoptics_apm_go.Base.Text.{Text}
use package.appoptics_apm_go.Reporter.Rpc.{
  ResultCode, RoundError, RpcOutcome, Method, Round, Conn, Loop, RoundStep, done, again, CallResult,
  called_err, called_ok, other_code, default_backoff, retry_on_err, reconnected, backed_off,
  retried, redirected, result_handled, after_called, after_call, call, invoke_round, invoke_from,
  invoke_rpc, after_step, set_queue_largest, message_len, is_empty_text,
}

-- The rounds that are left at most: 20 retries after each of 20 redirections.
abbrev pub left : Loop → ℕ
left loop = (20 - loop.redirects) * 21 + (20 - loop.retries_num)

-- A round that goes on has fewer left.
pub Fewer : ℕ → RoundStep → Type 0
Fewer n (done outcome c) = Unit
Fewer n (again c loop) = (loop.redirects ≤ 20) × (loop.retries_num ≤ 20) × (left loop < n)

backed_off-Fewer :
    (n : ℕ) (c : Conn) (loop : Loop)
    → loop.redirects ≤ 20
    → (loop.retries_num ≤ 20 → left loop < n)
    → Fewer n (backed_off (default_backoff loop.retries_num) c loop)
unfolding default_backoff Fewer
backed_off-Fewer n c loop few less =
    if_both (λ (o : Option ℕ). Fewer n (backed_off o c loop)) (ltb 20 loop.retries_num) (λ _. tt)
      (λ low. (few, ground arith, less (ground arith)))

retried-Fewer :
    (n : ℕ) (m : Method) (round : Round) (err : Option RoundError) (c : Conn) (loop : Loop)
    → loop.redirects ≤ 20
    → (loop.retries_num < 20 → (20 - loop.redirects) * 21 + (19 - loop.retries_num) < n)
    → Fewer n (retried m round err c loop)
unfolding retried Fewer
retried-Fewer n m round err c loop few less =
    if_both (λ (s : RoundStep). Fewer n s) (not (retry_on_err m.kind err)) (λ _. tt)
      (λ _.
        backed_off-Fewer n (reconnected round c)
          (record loop { retries_num = loop.retries_num + 1 }) few
          (λ low. omega (arith, less (omega arith))))

redirected-Fewer :
    (n : ℕ) (m : Method) (round : Round) (arg : Text) (c : Conn) (loop : Loop)
    → loop.retries_num ≤ 20
    → left loop ≤ n
    → Fewer n (redirected m round arg c loop)
unfolding redirected Fewer
redirected-Fewer n m round arg c loop low less =
    if_both (λ (s : RoundStep). Fewer n s) (ltb 20 (loop.redirects + 1)) (λ _. tt)
      (λ few.
        if_both (λ (s : RoundStep). Fewer n s) (is_empty_text arg)
          (λ _.
            retried-Fewer n m round none c (record loop { redirects = loop.redirects + 1 })
              (ground arith) (λ _. ground arith))
          (λ _.
            retried-Fewer n m round none (record c { address = arg; active = false })
              (record loop { redirects = loop.redirects + 1; retries_num = 0 }) (ground arith)
              (λ _. ground arith)))

result_handled-Fewer :
    (n : ℕ) (m : Method) (round : Round) (code : ResultCode) (arg : Text) (c : Conn) (loop : Loop)
    → loop.redirects ≤ 20
    → loop.retries_num ≤ 20
    → left loop ≤ n
    → Fewer n (result_handled m round code arg c loop)
unfolding result_handled Fewer
result_handled-Fewer n m round ResultCode.ok arg c loop few low less = tt
result_handled-Fewer n m round ResultCode.try_later arg c loop few low less =
    retried-Fewer n m round none _ loop few (λ lower. omega arith)
result_handled-Fewer n m round ResultCode.limit_exceeded arg c loop few low less =
    retried-Fewer n m round none _ loop few (λ lower. omega arith)
result_handled-Fewer n m round ResultCode.invalid_api_key arg c loop few low less = tt
result_handled-Fewer n m round ResultCode.redirect arg c loop few low less =
    redirected-Fewer n m round arg c loop low less
result_handled-Fewer n m round (other_code k) arg c loop few low less =
    retried-Fewer n m round none c loop few (λ lower. omega arith)

after_called-Fewer :
    (n : ℕ) (m : Method) (round : Round) (called : CallResult) (c : Conn) (loop : Loop)
    → loop.redirects ≤ 20
    → loop.retries_num ≤ 20
    → left loop ≤ n
    → Fewer n (after_called m round called c loop)
unfolding after_called
after_called-Fewer n m round (called_err err) c loop few low less =
    retried-Fewer n m round (some err) c _ few (λ lower. omega arith)
after_called-Fewer n m round (called_ok code arg) c loop few low less =
    result_handled-Fewer n m round code arg c _ few low less

invoke_round-Fewer :
    (n : ℕ) (m : Method) (round : Round) (c : Conn) (loop : Loop)
    → loop.redirects ≤ 20
    → loop.retries_num ≤ 20
    → left loop ≤ n
    → Fewer n (invoke_round m round c loop)
unfolding invoke_round Fewer
invoke_round-Fewer n m round c loop few low less =
    if_both (λ (s : RoundStep). Fewer n s) (round.exiting && round.flushed) (λ _. tt)
      (λ _.
        after_called-Fewer n m round (call m c round) (after_call (call m c round) c) loop few low
          less)

after_step_ends :
    (n : ℕ) (s : RoundStep) (next : Conn → Loop → Option (RpcOutcome × Conn))
    → Fewer n s
    → ((c : Conn) (loop : Loop)
        → loop.redirects ≤ 20
        → loop.retries_num ≤ 20
        → left loop < n
        → (result : RpcOutcome × Conn) × (next c loop ≡ some result))
    → (result : RpcOutcome × Conn) × (after_step s next ≡ some result)
unfolding Fewer
after_step_ends n (done outcome c) next fewer ends = ((outcome, c), refl)
after_step_ends n (again c loop) next (few, low, less) ends = ends c loop few low less

invoke_from_ends :
    (fuel : ℕ) (m : Method) (rounds : ℕ → Round) (i : ℕ) (c : Conn) (loop : Loop)
    → loop.redirects ≤ 20
    → loop.retries_num ≤ 20
    → left loop < fuel
    → (result : RpcOutcome × Conn) × (invoke_from fuel m rounds i c loop ≡ some result)
unfolding invoke_from
invoke_from_ends zero m rounds i c loop few low enough = absurd (omega arith)
invoke_from_ends (suc fuel) m rounds i c loop few low enough =
    after_step_ends fuel (invoke_round m (rounds i) c loop) _
      (invoke_round-Fewer fuel m (rounds i) c loop few low (omega arith))
      λ c loop few low less. invoke_from_ends fuel m rounds (i + 1) c loop few low less

-- Whatever the collector answers and whichever dials succeed, 441 rounds are enough for
-- `InvokeRPC` to return.
pub invoke_rpc_ends :
    (fuel : ℕ) (m : Method) (rounds : ℕ → Round) (c : Conn)
    → 440 < fuel
    → (result : RpcOutcome × Conn) × (invoke_rpc fuel m rounds c ≡ some result)
unfolding invoke_rpc
invoke_rpc_ends fuel m rounds c enough =
    invoke_from_ends fuel m rounds 0 (set_queue_largest (message_len m) c) _ (omega arith)
      (omega arith) enough
