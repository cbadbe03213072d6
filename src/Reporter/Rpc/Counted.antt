-- ===== src/Reporter/Rpc/Counted.antt =====
-- What `InvokeRPC` counts as sent, and how long it waits.
use mathlib.Core.Path.{subst}
use native.Mathlib.Nat.{pow-le-pow_left, le-div_iff_mul-le, mul-le-mul_left}
use package.appoptics_apm_go.Base.{
  ℕ, zero, suc, ◌+◌, ◌-◌, ◌*◌, ◌/◌, ◌%◌, ◌^◌, ◌≤◌, ◌≡◌, refl, ap, arith, false, not, ◌&&◌, List, [],
  ◌∷◌, ◌++◌, All, Option, none, some, ltb, if_both,
}
use package.appoptics_apm_go.Base.Text.{Text}
use package.appoptics_apm_go.Base.Powers.{pow2_pos}
use package.appoptics_apm_go.Reporter.Rpc.{
  ResultCode, RoundError, RpcOutcome, Method, Round, Conn, Loop, RoundStep, done, again, CallResult,
  called_err, called_ok, other_code, default_backoff, retry_delay, retry_on_err, reconnected,
  backed_off, retried, redirected, result_handled, after_called, after_call, call, invoke_round,
  invoke_from, invoke_rpc, after_step, set_queue_largest, message_len, is_empty_text, no_retry,
}

-- The counter of sent messages after an outcome, from its value before.
abbrev pub sent_total : ℕ → RpcOutcome → ℕ → ℕ
sent_total before RpcOutcome.sent len = (before + len) % 2 ^ 64
sent_total before RpcOutcome.reporter_exiting len = before
sent_total before RpcOutcome.invalid_service_key len = before
sent_total before RpcOutcome.too_many_redirections len = before
sent_total before RpcOutcome.give_up_after_retries len = before
sent_total before (no_retry err) len = before

-- A wait is between half a second and a minute.
pub record IsDelay (wait : ℕ) : Type 0 where
  pub least : 500 ≤ wait
  pub most : wait ≤ 60000

retry_delay-IsDelay : (retries : ℕ) → IsDelay (retry_delay retries)
unfolding retry_delay
retry_delay-IsDelay retries =
    if_both IsDelay (ltb (60 * 1000) (500 * 3 ^ (retries - 1) / 2 ^ (retries - 1)))
      (λ _. record { least = omega arith; most = omega arith })
      (λ low. record {
        least =
            (le-div_iff_mul-le {k = 2 ^ (retries - 1)} {x = 500} {y = 500 * 3 ^ (retries - 1)}
                (pow2_pos (retries - 1))).1
              (mul-le-mul_left 500 (pow-le-pow_left {n = 2} {m = 3} (omega arith) (retries - 1)));
        most = ground arith;
      })

-- What has been counted as sent, and the waits.
pub record IsTallied (before : ℕ) (c : Conn) : Type 0 where
  pub sent_is : c.num_sent ≡ before
  pub delays : All IsDelay c.waits

Tallied : ℕ → ℕ → RoundStep → Type 0
Tallied before len (done outcome c) = IsTallied (sent_total before outcome len) c
Tallied before len (again c loop) = IsTallied before c

some-inj : {A : Type 0} {a b : A} → some a ≡ some b → a ≡ b
some-inj e = grind arith

module _ (before len : ℕ) where
  add-IsDelay :
      (waits : List ℕ) (wait : ℕ)
      → All IsDelay waits
      → IsDelay wait
      → All IsDelay (waits ++ (wait ∷ []))
  add-IsDelay [] wait h new = (new, tt)
  add-IsDelay (x ∷ waits) wait (h, hs) new = (h, add-IsDelay waits wait hs new)

  retried-Tallied :
      (m : Method) (round : Round) (err : Option RoundError) (c : Conn) (loop : Loop)
      → IsTallied before c
      → Tallied before len (retried m round err c loop)
  unfolding retried Tallied default_backoff reconnected
  retried-Tallied m round err c loop known =
      if_both (λ (s : RoundStep). Tallied before len s) (not (retry_on_err m.kind err)) (λ _. same)
        (λ _.
          if_both
            (λ (o : Option ℕ). Tallied before len (
              backed_off o (reconnected round c)
                (record loop { retries_num = loop.retries_num + 1 })))
            (ltb 20 (loop.retries_num + 1)) (λ _. same)
            (λ _. record {
              sent_is = same.sent_is;
              delays =
                  add-IsDelay (reconnected round c).waits _ same.delays
                    (retry_delay-IsDelay (loop.retries_num + 1));
            }))
    where
      same : IsTallied before (reconnected round c)
      same =
          if_both (λ (c : Conn). IsTallied before c) (not c.active && round.dialed)
            (λ _. record { sent_is = known.sent_is; delays = known.delays }) (λ _. known)

  redirected-Tallied :
      (m : Method) (round : Round) (arg : Text) (c : Conn) (loop : Loop)
      → IsTallied before c
      → Tallied before len (redirected m round arg c loop)
  unfolding redirected Tallied
  redirected-Tallied m round arg c loop known =
      if_both (λ (s : RoundStep). Tallied before len s) (ltb 20 (loop.redirects + 1)) (λ _. known)
        (λ _.
          if_both (λ (s : RoundStep). Tallied before len s) (is_empty_text arg)
            (λ _. retried-Tallied m round none c _ known)
            (λ _.
              retried-Tallied m round none (record c { address = arg; active = false }) _
                (record { sent_is = known.sent_is; delays = known.delays })))

module _ (before : ℕ) (m : Method) where
  result_handled-Tallied :
      (round : Round) (code : ResultCode) (arg : Text) (c : Conn) (loop : Loop)
      → IsTallied before c
      → Tallied before (message_len m) (result_handled m round code arg c loop)
  unfolding result_handled Tallied
  result_handled-Tallied round ResultCode.ok arg c loop known = record {
    sent_is = ap (λ n. (n + message_len m) % 2 ^ 64) known.sent_is;
    delays = known.delays;
  }
  result_handled-Tallied round ResultCode.try_later arg c loop known =
      retried-Tallied before (message_len m) m round none _ loop
        (record { sent_is = known.sent_is; delays = known.delays })
  result_handled-Tallied round ResultCode.limit_exceeded arg c loop known =
      retried-Tallied before (message_len m) m round none _ loop
        (record { sent_is = known.sent_is; delays = known.delays })
  result_handled-Tallied round ResultCode.invalid_api_key arg c loop known = known
  result_handled-Tallied round ResultCode.redirect arg c loop known =
      redirected-Tallied before (message_len m) m round arg c loop known
  result_handled-Tallied round (other_code n) arg c loop known =
      retried-Tallied before (message_len m) m round none c loop known

  after_call-IsTallied :
      (called : CallResult) (c : Conn) → IsTallied before c → IsTallied before (after_call called c)
  after_call-IsTallied (called_err RoundError.conn_stale) c known = record {
    sent_is = known.sent_is;
    delays = known.delays;
  }
  after_call-IsTallied (called_err RoundError.request_too_big) c known = known
  after_call-IsTallied (called_err RoundError.call_error) c known = known
  after_call-IsTallied (called_ok code arg) c known = known

  after_called-Tallied :
      (round : Round) (called : CallResult) (c : Conn) (loop : Loop)
      → IsTallied before c
      → Tallied before (message_len m) (after_called m round called c loop)
  unfolding after_called
  after_called-Tallied round (called_err err) c loop known =
      retried-Tallied before (message_len m) m round (some err) c _ known
  after_called-Tallied round (called_ok code arg) c loop known =
      result_handled-Tallied round code arg c _ known

  invoke_round-Tallied :
      (round : Round) (c : Conn) (loop : Loop)
      → IsTallied before c
      → Tallied before (message_len m) (invoke_round m round c loop)
  unfolding invoke_round Tallied
  invoke_round-Tallied round c loop known =
      if_both (λ (s : RoundStep). Tallied before (message_len m) s) (round.exiting && round.flushed)
        (λ _. known)
        (λ _.
          after_called-Tallied round (call m c round) (after_call (call m c round) c) loop
            (after_call-IsTallied (call m c round) c known))

  after_step-IsTallied :
      (s : RoundStep) (next : Conn → Loop → Option (RpcOutcome × Conn)) (outcome : RpcOutcome)
      (c' : Conn)
      → Tallied before (message_len m) s
      → ((c : Conn) (loop : Loop)
          → IsTallied before c
          → next c loop ≡ some (outcome, c')
          → IsTallied (sent_total before outcome (message_len m)) c')
      → after_step s next ≡ some (outcome, c')
      → IsTallied (sent_total before outcome (message_len m)) c'
  unfolding Tallied
  after_step-IsTallied (done outcome' c) next outcome c' known rest e =
      subst (λ (t : RpcOutcome × Conn). IsTallied (sent_total before t.0 (message_len m)) t.1)
        (some-inj e) known
  after_step-IsTallied (again c loop) next outcome c' known rest e = rest c loop known e

  invoke_from-IsTallied :
      (fuel : ℕ) (rounds : ℕ → Round) (i : ℕ) (c : Conn) (loop : Loop) (outcome : RpcOutcome)
      (c' : Conn)
      → IsTallied before c
      → invoke_from fuel m rounds i c loop ≡ some (outcome, c')
      → IsTallied (sent_total before outcome (message_len m)) c'
  unfolding invoke_from
  invoke_from-IsTallied zero rounds i c loop outcome c' known e = absurd (grind arith)
  invoke_from-IsTallied (suc fuel) rounds i c loop outcome c' known e =
      after_step-IsTallied (invoke_round m (rounds i) c loop) _ outcome c'
        (invoke_round-Tallied (rounds i) c loop known)
        (λ c loop known e. invoke_from-IsTallied fuel rounds (i + 1) c loop outcome c' known e) e

-- Whenever `InvokeRPC` returns, it has counted its messages as sent once where it returns no
-- error, and not at all where it returns one; and each of its waits took between half a second
-- and a minute.
pub invoke_rpc_tally :
    (fuel : ℕ) (m : Method) (rounds : ℕ → Round) (c : Conn) (outcome : RpcOutcome) (c' : Conn)
    → All IsDelay c.waits
    → invoke_rpc fuel m rounds c ≡ some (outcome, c')
    → (c'.num_sent ≡ sent_total c.num_sent outcome (message_len m)) × All IsDelay c'.waits
unfolding invoke_rpc set_queue_largest
invoke_rpc_tally fuel m rounds c outcome c' delays e =
    let tally =
      invoke_from-IsTallied c.num_sent m fuel rounds 0 (set_queue_largest (message_len m) c) _
        outcome c'
        (if_both (λ (c' : Conn). IsTallied c.num_sent c') (ltb c.queue_largest (message_len m))
          (λ _. record { sent_is = refl; delays = delays })
          (λ _. record { sent_is = refl; delays = delays }))
        e in
    (tally.sent_is, tally.delays)
