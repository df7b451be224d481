-- ===== src/Execution/Remote/Classify.antt =====
-- server/src/execution/remote_strategy.cpp: what one dispatch makes of the worker's answer.
use task_hub.Execution.Context.{ExecutionContext, TextCalls}
use task_hub.Execution.Remote.{
  Output, Reply, HttpError, no_response, response, is_retryable_http_status, inject_run_id,
  build_dispatch_ack_result, text_member,
}
use task_hub.Execution.Remote.Dispatch.{
  Call, DispatchAttemptResult, dispatch_once, answered, acknowledged, bad_status, invalid_json,
  no_answer, no_answer_status, timed_out_before, has_passed, read_timeout, payload_of,
  called_attempt,
}
use task_hub.Json.{Json, Fields, JsonCalls, object, value_with}
use task_hub.Runner.Task.{TaskResult, is_ok}
use task_hub.Worker.Selector.{WorkerInfo}
use task_hub.Prelude.{
  ℕ, ℤ, pos, Text, text, true, false, some, List, ◌≡◌, ◌⊎◌, ◌↔◌, ◌≤ℤ◌, ◌<ℤ◌, arith, inl, inr,
  Option-cases, Bool-cases, ◌≤◌, ◌*◌, ◌+◌, ◌-◌, refl, ltb_ℤ, ◌||◌, leb_ℤ,
}

-- With a deadline that has not passed, a call waits at least a millisecond for its answer, and else
-- no longer than until the deadline.
pub read_timeout-bounded :
    (d now : ℕ)
    → let (sec, usec) = read_timeout (some d) now in
      (1000 ≤ sec * 1000000 + usec)
      × ((sec * 1000000 + usec ≡ 1000) ⊎ ((sec * 1000000 + usec) * 1000 ≤ d - now))
unfolding read_timeout
read_timeout-bounded d now = ground arith

-- What makes a worker's answer an acknowledgement: a status between 200 and 299, a body that is
-- JSON, and in it, or in its object `data`, an `ok` that is true or a text `run_id`.
pub record IsAck (t : TextCalls) (c : JsonCalls) (r : Reply) : Type 0 where
  pub status : ℤ
  pub reply_body : Text
  pub json : Json
  pub answer : r ≡ response status reply_body
  pub good : (pos 200 ≤ℤ status) × (status <ℤ pos 300)
  pub parsed : t.parse reply_body ≡ some json
  pub accepted :
      (value_with c.get_bool (text "ok") false (payload_of json) ≡ some true)
      ⊎ ((run : Text) × (text_member (text "run_id") (payload_of json) ≡ some run))

module _ (t : TextCalls) (c : JsonCalls) (ctx : ExecutionContext) (queue : Text)
    (w : WorkerInfo) where
  abbrev pub answer_of : Call → Fields → Reply
  answer_of k payload =
      k.reply w (read_timeout ctx.deadline k.before_at)
        (c.dump (object (inject_run_id ctx.config.id.run_id payload)))

  no_answer_not_ok :
      (k : Call) (e : HttpError) (r : TaskResult)
      → is_ok (no_answer t c ctx queue w k e r).0.result.status ≡ false
  unfolding no_answer no_answer_status
  no_answer_not_ok k e r = ground arith

  ack_ok :
      (j : Json) (attempt : TaskResult) (a : DispatchAttemptResult) (outs : List Output)
      → acknowledged t c ctx queue w j attempt ≡ some (a, outs)
      → (is_ok a.result.status ≡ true) ↔ (
          (value_with c.get_bool (text "ok") false (payload_of j) ≡ some true)
          ⊎ ((run : Text) × (text_member (text "run_id") (payload_of j) ≡ some run)))
  unfolding acknowledged build_dispatch_ack_result
  ack_ok j attempt a outs e =
      elim (Option-cases (value_with c.get_bool (text "ok") false (payload_of j))) [
        | inl n ↦ ground (arith, n)
        | inr (b, n) ↦ elim (Option-cases (text_member (text "run_id") (payload_of j))) [
          | inl m ↦ ground (arith, n, m)
          | inr (run, m) ↦ ground (arith, n, m)
        ]
      ]

  answered-IsAck :
      (k : Call) (r : Reply) (attempt : TaskResult) (a : DispatchAttemptResult) (outs : List Output)
      → answered t c ctx queue w k r attempt ≡ some (a, outs)
      → (is_ok a.result.status ≡ true) ↔ IsAck t c r
  unfolding answered bad_status invalid_json
  answered-IsAck k (no_response e) attempt a outs h = (
    ground (arith, no_answer_not_ok k e attempt),
    λ (ack : IsAck t c (no_response e)). ground (arith, ack.answer),
  )
  answered-IsAck k (response status reply_body) attempt a outs h =
      elim (Bool-cases (ltb_ℤ status (pos 200) || leb_ℤ (pos 300) status)) [
        | inl bad ↦ (
          ground arith,
          λ (ack : IsAck t c (response status reply_body)). ground (arith, ack.answer, ack.good),
        )
        | inr good ↦ elim (Option-cases (t.parse reply_body)) [
          | inl n ↦ (
            ground (arith, n),
            λ (ack : IsAck t c (response status reply_body)).
                ground (arith, n, ack.answer, ack.parsed),
          )
          | inr (j, n) ↦
              let both = ack_ok j attempt a outs (ground (arith, n)) in
              (
                λ ok. record {
                  status = status;
                  reply_body = reply_body;
                  json = j;
                  answer = refl;
                  good = ground arith;
                  parsed = n;
                  accepted = both.0 ok;
                },
                λ (ack : IsAck t c (response status reply_body)).
                    let same : ack.json ≡ j = ground (arith, n, ack.answer, ack.parsed) in
                    both.1 (rw (← same) ack.accepted),
              )
        ]
      ]

  response_retryable :
      (k : Call) (status : ℤ) (reply_body : Text) (attempt : TaskResult) (a : DispatchAttemptResult)
      (outs : List Output)
      → answered t c ctx queue w k (response status reply_body) attempt ≡ some (a, outs)
      → (a.retryable ≡ true) ↔ ((pos 500 ≤ℤ status) × (status ≤ℤ pos 599))
  unfolding answered bad_status is_retryable_http_status invalid_json acknowledged
  response_retryable k status reply_body attempt a outs h =
      elim (Option-cases (t.parse reply_body)) [
        | inl n ↦ ground (arith, n)
        | inr (j, n) ↦ elim (Option-cases (build_dispatch_ack_result c (payload_of j))) [
          | inl m ↦ ground (arith, n, m)
          | inr (parsed, m) ↦ ground (arith, n, m)
        ]
      ]

  answered-retryable :
      (k : Call) (r : Reply) (attempt : TaskResult) (a : DispatchAttemptResult) (outs : List Output)
      → answered t c ctx queue w k r attempt ≡ some (a, outs)
      → (a.retryable ≡ true) ↔ (
          ((e : HttpError) × (r ≡ no_response e)
            × (k.is_canceled ≡ false)
            × (has_passed ctx.deadline k.after_at ≡ false))
          ⊎ ((status : ℤ) × (reply_body : Text) × (r ≡ response status reply_body)
              × (pos 500 ≤ℤ status)
              × (status ≤ℤ pos 599)))
  unfolding answered no_answer no_answer_status bad_status is_retryable_http_status invalid_json
      acknowledged
  answered-retryable k (no_response e) attempt a outs h = (
    λ tried. inl (e, refl, ground arith, ground arith),
    λ why. elim why [ inl q ↦ ground (arith, q.2, q.3) | inr q ↦ ground (arith, q.2) ],
  )
  answered-retryable k (response status reply_body) attempt a outs h =
      let both = response_retryable k status reply_body attempt a outs h in
      (
        λ tried. inr (status, reply_body, refl, (both.0 tried).0, (both.0 tried).1),
        λ why. elim why [ inl q ↦ ground (arith, q.1) | inr q ↦ both.1 (ground (arith, q.2)) ],
      )

  dispatch_once-answered :
      (k : Call) (payload : Fields) (a : DispatchAttemptResult) (outs : List Output)
      → dispatch_once t c ctx queue w k payload ≡ some (a, outs)
      → ((has_passed ctx.deadline k.before_at ≡ true) × (a ≡ (timed_out_before t c ctx queue w).0))
        ⊎ ((has_passed ctx.deadline k.before_at ≡ false)
            × ((outs' : List Output) × (answered t c ctx queue w k
                    (answer_of k payload)
                    (called_attempt t c ctx queue w k)
                  ≡ some (a, outs'))))
  unfolding dispatch_once
  dispatch_once-answered k payload a outs h =
      elim (Bool-cases (has_passed ctx.deadline k.before_at)) [
        | inl late ↦ inl (late, ground (arith, late))
        | inr soon ↦
            let attempt = called_attempt t c ctx queue w k in
            elim (Option-cases (answered t c ctx queue w k (answer_of k payload) attempt)) [
              | inl n ↦ ground (arith, n, soon)
              | inr ((b, more), n) ↦ inr (soon, (more, ground (arith, n, soon)))
            ]
      ]

  -- A dispatch succeeds exactly when the time is not over, the library's conversion of `ok` does not
  -- throw, and the worker's answer is an acknowledgement.
  pub dispatch_once-IsAck :
      (k : Call) (payload : Fields) (a : DispatchAttemptResult) (outs : List Output)
      → dispatch_once t c ctx queue w k payload ≡ some (a, outs)
      → (is_ok a.result.status ≡ true)
        ↔ ((has_passed ctx.deadline k.before_at ≡ false) × IsAck t c (answer_of k payload))
  unfolding timed_out_before
  dispatch_once-IsAck k payload a outs e = elim (dispatch_once-answered k payload a outs e) [
    | inl (late, same) ↦ ground (arith, timed_out_before)
    | inr (soon, (outs', h)) ↦
        ground (
          arith,
          answered-IsAck k (answer_of k payload) (called_attempt t c ctx queue w k) a outs' h,
        )
  ]

  -- A dispatch is tried again exactly when the time was not over before it, and the worker gave no
  -- answer, without a cancellation and before the deadline, or one with a status from 500 to 599.
  pub dispatch_once-retryable :
      (k : Call) (payload : Fields) (a : DispatchAttemptResult) (outs : List Output)
      → dispatch_once t c ctx queue w k payload ≡ some (a, outs)
      → (a.retryable ≡ true) ↔ (
          (has_passed ctx.deadline k.before_at ≡ false)
          × (((e : HttpError) × (answer_of k payload ≡ no_response e)
                × (k.is_canceled ≡ false)
                × (has_passed ctx.deadline k.after_at ≡ false))
              ⊎ ((status : ℤ) × (reply_body : Text) × (answer_of k payload
                    ≡ response status reply_body)
                  × (pos 500 ≤ℤ status)
                  × (status ≤ℤ pos 599))))
  unfolding timed_out_before
  dispatch_once-retryable k payload a outs e = elim (dispatch_once-answered k payload a outs e) [
    | inl (late, same) ↦ ground (arith, timed_out_before)
    | inr (soon, (outs', h)) ↦ ground (
      arith,
      answered-retryable k (answer_of k payload) (called_attempt t c ctx queue w k) a outs' h,
    )
  ]

  answered-worker_id :
      (k : Call) (r : Reply) (attempt : TaskResult) (a : DispatchAttemptResult) (outs : List Output)
      → attempt.worker_id ≡ w.id
      → answered t c ctx queue w k r attempt ≡ some (a, outs)
      → a.result.worker_id ≡ w.id
  unfolding answered no_answer bad_status invalid_json acknowledged
  answered-worker_id k (no_response e) attempt a outs own h = ground arith
  answered-worker_id k (response status reply_body) attempt a outs own h =
      elim (Option-cases (t.parse reply_body)) [
        | inl n ↦ ground (arith, n)
        | inr (j, n) ↦ elim (Option-cases (build_dispatch_ack_result c (payload_of j))) [
          | inl m ↦ ground (arith, n, m)
          | inr (parsed, m) ↦ ground (arith, n, m)
        ]
      ]

  pub dispatch_once-worker_id :
      (k : Call) (payload : Fields) (a : DispatchAttemptResult) (outs : List Output)
      → dispatch_once t c ctx queue w k payload ≡ some (a, outs)
      → a.result.worker_id ≡ w.id
  unfolding timed_out_before
  dispatch_once-worker_id k payload a outs e = elim (dispatch_once-answered k payload a outs e) [
    | inl (late, same) ↦ ground (arith, timed_out_before)
    | inr (soon, (outs', h)) ↦
        answered-worker_id k (answer_of k payload) (called_attempt t c ctx queue w k) a outs' refl h
  ]
