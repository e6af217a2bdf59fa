-- ===== src/Dispatch/Worker.antt =====
-- dispatch.go: the worker of one endpoint, `endpointWorker`, method by method. A method takes the
-- worker and returns the new one with its result; the loops are over the files and over the
-- attempts that are left.
use uploadfun.Base.{
  ℕ, zero, suc, ◌+◌, ℤ, pos, pos_part, sub_ℕ, ltb_ℤ, leb_ℤ, String, ◌<>◌, ◌==◌, Bool, true, false,
  List, [], ◌∷◌, length, is_nil, Option, none, some, is_some, if◌then◌else◌,
}
use uploadfun.Base.{Err, root, wrap, other, message, is_permission}
use uploadfun.Base.Text.{base, show_ℕ}
use uploadfun.Upload.{
  Endpoint, Options, overwrite_delete_first, file_start, progress, file_success, file_error,
  endpoint_unreachable, endpoint_given_up, endpoint_done,
}
use uploadfun.Dispatch.Effects.{Uploader, Process, Action, Worker, record_action, emit}

-- `connectResult`
pub data ConnectResult : Type 0 where
  connect_ok connect_failed connect_canceled : ConnectResult

-- How one round of the loop in `uploadFile` ends: by its `return`, or by `continue`.
pub data Verdict : Type 0 where
  settled : Bool → Verdict
  retry : Verdict

-- The two counters of `run`.
pub record Tally : Type 0 where
  pub succeeded : ℕ
  pub failed : ℕ

abbrev pub count_success : Tally → Tally
count_success t = record t { succeeded = t.succeeded + 1 }

abbrev pub add_failed : ℕ → Tally → Tally
add_failed n t = record t { failed = t.failed + n }

-- The callback of `transfer`, called once for each pair.
unfoldable pub emit_progress : {W : Type 0} → String → String → List (ℕ × ℕ) → Worker W → Worker W
emit_progress name file [] w = w
emit_progress name file ((sent, total) ∷ more) w =
    emit_progress name file more (emit (progress name file sent total) w)

module _ {W : Type 0} (process : Process W) (up : Uploader W) (ep : Endpoint) (opts : Options) where
  -- `w.ctx.Err() != nil`
  unfoldable pub poll_context : Worker W → Worker W × Bool
  poll_context w =
      let (err, world) = process.ctx_err w.world in
      (record w { world = world; log = Action.poll (is_some err) ∷ w.log }, is_some err)

  -- `time.Now()`
  unfoldable pub read_clock : Worker W → Worker W × ℕ
  read_clock w = let (t, world) = process.now w.world in (record w { world = world }, t)

  unfoldable pub circuit_open : Worker W → Bool
  circuit_open w = leb_ℤ ep.max_consecutive_connect_failures (pos w.consecutive_connect_failures)

  unfoldable pub skip_remaining : List String → Worker W → Worker W × ℕ
  skip_remaining files w =
      (emit (endpoint_unreachable ep.name w.consecutive_connect_failures files) w, length files)

  -- The error is the worker's `permanentErr`.
  unfoldable pub skip_given_up : Err → List String → Worker W → Worker W × ℕ
  skip_given_up e files w = (emit (endpoint_given_up ep.name (message e) files) w, length files)

  -- The world after `up.Connect`, with the call on record.
  unfoldable pub dial : Worker W → Worker W × Option Err
  dial w =
      let (err, world) = up.connect ep.connect_timeout ep w.world in
      (record w { world = world; log = Action.connect err ∷ w.log }, err)

  unfoldable pub connect : String → ℕ → Worker W → Worker W × ConnectResult
  connect file attempt w =
      let (w1, err) = dial w in
      elim err [
        | none ↦ (record w1 { consecutive_connect_failures = 0; connected = true }, connect_ok)
        | some e ↦
            let (w2, canceled) = poll_context w1 in
            if canceled then (w2, connect_canceled) else (
              emit (file_error ep.name file attempt ("connect: " <> message e) e) (record w2 {
                consecutive_connect_failures = w2.consecutive_connect_failures + 1;
              }),
              connect_failed,
            )
      ]

  unfoldable pub report_giving_up : String → ℕ → Worker W → Worker W
  report_giving_up file attempt w =
      let text =
        "endpoint unreachable: "
        <> show_ℕ w.consecutive_connect_failures
        <> " consecutive connect failures, giving up on this file" in
      emit (file_error ep.name file attempt text (root other text)) w

  unfoldable pub disconnect : Worker W → Worker W
  disconnect w =
      if w.connected
      then (let (_, world) = up.disconnect w.world in
          record w { world = world; log = Action.disconnect ∷ w.log; connected = false })
      else w

  -- The process waits for the timer or for the context to be cancelled.
  unfoldable pub sleep_retry_delay : ℤ → Worker W → Worker W
  sleep_retry_delay delay w = record w {
    world = process.sleep delay w.world;
    log = Action.pause delay ∷ w.log;
  }

  unfoldable pub sleep_before_retry : ℕ → Worker W → Worker W
  sleep_before_retry attempt w =
      if ltb_ℤ (pos attempt) ep.attempts then sleep_retry_delay ep.retry_delay w else w

  -- The three calls of `transfer`, each with its own error.
  unfoldable pub delete_existing : String → Worker W → Worker W × Option Err
  delete_existing remote w =
      if ep.overwrite == overwrite_delete_first
      then (let (err, world) = up.delete remote w.world in
          (record w { world = world; log = Action.delete remote err ∷ w.log }, err))
      else (w, none)

  unfoldable pub send : String → String → Worker W → Worker W × Option Err
  send file remote w =
      let (steps, err, world) = up.upload file remote w.world in
      let w1 = emit_progress ep.name file steps (record w { world = world }) in
      (record_action (Action.upload file remote err) w1, err)

  unfoldable pub confirm : String → String → Worker W → Worker W × String × Option Err
  confirm file remote w =
      let (method, err, world) = up.verify file remote w.world in
      (record w { world = world; log = Action.verify file remote method err ∷ w.log }, method, err)

  -- The verification method, or the first error.
  unfoldable pub transfer : String → String → Worker W → Worker W × String × Option Err
  transfer file remote w =
      let (w1, delete_err) = delete_existing remote w in
      elim delete_err [
        | some e ↦ (w1, "", some (wrap "delete existing remote file: " e))
        | none ↦
            let (w2, upload_err) = send file remote w1 in
            elim upload_err [
              | some e ↦ (w2, "", some (wrap "upload: " e))
              | none ↦
                  if opts.no_verify
                  then (w2, "", none)
                  else (let (w3, method, verify_err) = confirm file remote w2 in
                      elim verify_err [
                        | some e ↦ (w3, "", some (wrap "verify: " e))
                        | none ↦ (w3, method, none)
                      ])
            ]
      ]

  -- What `uploadFile` does with an attempt on a live connection.
  unfoldable pub try_transfer : String → ℕ → Worker W → Worker W × Verdict
  try_transfer file attempt w =
      let (w1, start) = read_clock (emit (file_start ep.name file attempt) w) in
      let (w2, method, err) = transfer file (base file) w1 in
      elim err [
        | some e ↦
            let w3 = disconnect (emit (file_error ep.name file attempt (message e) e) w2) in
            if is_permission e
            then (record w3 { permanent_err = some e }, settled false)
            else (sleep_before_retry attempt w3, retry)
        | none ↦
            let (w3, end) = read_clock w2 in
            (emit (file_success ep.name file method (sub_ℕ end start)) w3, settled true)
      ]

  -- What it does where a connection is wanted first.
  unfoldable pub reconnect : String → ℕ → Worker W → Worker W × Verdict
  reconnect file attempt w =
      let (w1, result) = connect file attempt w in
      elim result [
        | connect_canceled ↦ (w1, settled false)
        | connect_failed ↦
            if circuit_open w1
            then (report_giving_up file attempt w1, settled false)
            else (sleep_before_retry attempt w1, retry)
        | connect_ok ↦ try_transfer file attempt w1
      ]

  -- The body of the loop in `uploadFile`.
  unfoldable pub attempt_once : String → ℕ → Worker W → Worker W × Verdict
  attempt_once file attempt w =
      let (w1, canceled) = poll_context w in
      if canceled
      then (w1, settled false)
      else if w1.connected
      then try_transfer file attempt w1
      else reconnect file attempt w1

  -- `for attempt := …; attempt <= w.ep.Attempts; attempt++`, with the number of rounds left.
  unfoldable pub upload_attempts : ℕ → ℕ → String → Worker W → Worker W × Bool
  upload_attempts zero attempt file w = (w, false)
  upload_attempts (suc rounds) attempt file w =
      let (w1, verdict) = attempt_once file attempt w in
      elim verdict [
        | settled done ↦ (w1, done)
        | retry ↦ upload_attempts rounds (attempt + 1) file w1
      ]

  unfoldable pub upload_file : String → Worker W → Worker W × Bool
  upload_file file w = upload_attempts (pos_part ep.attempts) 1 file w

  -- The rest of the batch after a permanent error, if there is a rest.
  unfoldable pub abandon : Err → List String → Worker W → Worker W × ℕ
  abandon e rest w = if is_nil rest then (w, 0) else skip_given_up e rest w

  -- The body of the loop in `run`. The flag says whether the loop is left.
  unfoldable pub visit : String → List String → Tally → Worker W → Worker W × Tally × Bool
  visit file rest t w =
      let (w1, canceled) = poll_context w in
      if canceled
      then (w1, add_failed (length (file ∷ rest)) t, true)
      else if circuit_open w1
      then (let (w2, n) = skip_remaining (file ∷ rest) w1 in (w2, add_failed n t, true))
      else (let (w2, done) = upload_file file w1 in
          let t1 = if done then count_success t else add_failed 1 t in
          elim w2.permanent_err [
            | none ↦ (w2, t1, false)
            | some e ↦ let (w3, n) = abandon e rest w2 in (w3, add_failed n t1, true)
          ])

  -- The loop of `run`.
  unfoldable pub visit_all : List String → Tally → Worker W → Worker W × Tally
  visit_all [] t w = (w, t)
  visit_all (file ∷ rest) t w =
      let (w1, t1, stop) = visit file rest t w in
      elim stop [ true ↦ (w1, t1) | false ↦ visit_all rest t1 w1 ]

  unfoldable pub run : List String → Worker W → Worker W
  run files w =
      let (w1, start) = read_clock w in
      let (w2, t) = visit_all files (record { succeeded = 0; failed = 0 }) w1 in
      let (w3, end) = read_clock w2 in
      disconnect (emit (endpoint_done ep.name t.succeeded t.failed (sub_ℕ end start)) w3)
