-- ===== src/Dispatch/Cancel.antt =====
-- dispatch.go: what a worker does once the context is cancelled.
use uploadfun.Base.Text.{base}
use uploadfun.Base.{
  ◌⊎◌, inl, inr, Option-cases, message, ℕ, zero, suc, ◌+◌, ◌≡◌, refl, String, Bool, true, false,
  List, [], ◌∷◌, none, is_some, arith,
}
use uploadfun.Upload.{
  Endpoint, Options, UploadEvent, file_error, endpoint_done, file_start, progress,
}
use uploadfun.Dispatch.Effects.{Uploader, Process, Action, Log, Worker, new_worker, emit}
use uploadfun.Dispatch.Worker.{
  sleep_retry_delay, Tally, emit_progress, poll_context, read_clock, skip_remaining, dial, connect,
  report_giving_up, disconnect, sleep_before_retry, skip_given_up, abandon, delete_existing, send,
  confirm, transfer, try_transfer, reconnect, attempt_once, upload_file, visit, visit_all, run,
  retry, settled, upload_attempts, connect_canceled,
}
use uploadfun.Dispatch.Budget.{was_canceled}

-- A context that is cancelled stays so, as `context` documents: `canceled` tells it from the world, is
-- what `ctx.Err()` answers, and is not undone by the question.
pub record Cancellation {W : Type 0} (process : Process W) (up : Uploader W) : Type 0 where
  pub canceled : W → Bool
  pub answers : (w : W) → is_some (process.ctx_err w).0 ≡ canceled w
  pub after_ctx_err : (w : W) → canceled w ≡ true → canceled (process.ctx_err w).1 ≡ true

-- What may come after the context was found cancelled: another question, the end of the connection,
-- and the last report.
abbrev pub Calm : Action → Bool → Type 0
Calm (Action.poll _) canceled = Unit {0}
Calm Action.disconnect canceled = Unit {0}
Calm (Action.event (endpoint_done _ _ _ _)) canceled = Unit {0}
Calm _ canceled = canceled ≡ false

abbrev pub IsCalm : Log → Type 0
IsCalm [] = Unit
IsCalm (a ∷ l) = Calm a (was_canceled l) × IsCalm l

-- The context was not yet found cancelled.
record IsBusy {W : Type 0} (w : Worker W) : Type 0 where
  calm : IsCalm w.log
  busy : was_canceled w.log ≡ false

-- A step of a worker that has found nothing cancelled, and knows of no permanent error.
abbrev StaysBusy : {W : Type 0} → Worker W → Worker W → Type 0
StaysBusy w' w = IsBusy w' × (w'.permanent_err ≡ w.permanent_err)

emit_progress-IsBusy :
    {W : Type 0} (name file : String) (steps : List (ℕ × ℕ)) (w : Worker W)
    → IsBusy w
    → StaysBusy (emit_progress name file steps w) w
unfolding emit_progress
emit_progress-IsBusy name file [] w c = (c, refl)
emit_progress-IsBusy name file ((sent, total) ∷ steps) w c =
    emit_progress-IsBusy name file steps (emit (progress name file sent total) w) (ground arith)

module _ {W : Type 0} (process : Process W) (up : Uploader W) (ep : Endpoint) (opts : Options)
    (cancellation : Cancellation process up) where
  transfer-IsBusy :
      (file remote : String) (w : Worker W)
      → IsBusy w
      → StaysBusy (transfer process up ep opts file remote w).0 w
  unfolding transfer delete_existing send confirm
  transfer-IsBusy file remote w c = grind (arith, emit_progress-IsBusy)

  disconnect-IsBusy : (w : Worker W) → IsBusy w → StaysBusy (disconnect process up ep opts w) w
  unfolding disconnect
  disconnect-IsBusy w c = ground arith

  sleep_before_retry-IsBusy :
      (attempt : ℕ) (w : Worker W)
      → IsBusy w
      → StaysBusy (sleep_before_retry process up ep opts attempt w) w
  unfolding sleep_before_retry sleep_retry_delay
  sleep_before_retry-IsBusy attempt w c = ground arith

  -- The end of an attempt that failed.
  failed_attempt-IsBusy :
      (attempt : ℕ) (e : UploadEvent) (w : Worker W)
      → Calm (Action.event e) false
      → IsBusy w
      → let w1 = disconnect process up ep opts (emit e w) in
        StaysBusy w1 w × StaysBusy (sleep_before_retry process up ep opts attempt w1) w
  failed_attempt-IsBusy attempt e w calm c =
      let w1 = disconnect process up ep opts (emit e w) in
      ground
        (arith, disconnect-IsBusy (emit e w) (ground arith), sleep_before_retry-IsBusy attempt w1)

  try_transfer-IsBusy :
      (file : String) (attempt : ℕ) (w : Worker W)
      → IsBusy w
      → let (w', v) = try_transfer process up ep opts file attempt w in
        IsBusy w' × ((v ≡ settled false) ⊎ (w'.permanent_err ≡ w.permanent_err))
  unfolding try_transfer read_clock
  try_transfer-IsBusy file attempt w c =
      let w1 = (read_clock process up ep opts (emit (file_start ep.name file attempt) w)).0 in
      let (w2, method, err) = transfer process up ep opts file (base file) w1 in
      let busy = transfer-IsBusy file (base file) w1 (ground arith) in
      elim (Option-cases err) [
        | inl fine ↦ ground (arith, busy, fine)
        | inr (e, bad) ↦ ground (
          arith,
          busy,
          bad,
          failed_attempt-IsBusy attempt (file_error ep.name file attempt (message e) e) w2,
        )
      ]

  -- The log is calm, if the context was found cancelled in it, it is, and there is no permanent error.
  record IsAware (w : Worker W) : Type 0 where
    calm : IsCalm w.log
    aware : was_canceled w.log ≡ true → cancellation.canceled w.world ≡ true
    no_error : w.permanent_err ≡ none

  -- A question to the context.
  poll_context-IsAware :
      (w : Worker W)
      → IsAware w
      → let (w', canceled) = poll_context process up ep opts w in
        IsAware w' × (canceled ≡ false → IsBusy w')
  unfolding poll_context
  poll_context-IsAware w c =
      ground (arith, cancellation.answers w.world, cancellation.after_ctx_err w.world)

  connect-IsAware :
      (file : String) (attempt : ℕ) (w : Worker W)
      → IsBusy w
      → w.permanent_err ≡ none
      → let (w', result) = connect process up ep opts file attempt w in
        IsAware w' × ((result ≡ connect_canceled) ⊎ IsBusy w')
  unfolding connect dial
  connect-IsAware file attempt w c n =
      let (w1, err) = dial process up ep opts w in
      ground (arith, poll_context-IsAware w1 (ground arith))

  attempt_once-IsAware :
      (file : String) (attempt : ℕ) (w : Worker W)
      → IsAware w
      → let (w', v) = attempt_once process up ep opts file attempt w in
        (IsAware w' ⊎ IsBusy w') × (v ≡ retry → IsAware w')
  unfolding attempt_once reconnect report_giving_up
  attempt_once-IsAware file attempt w c =
      grind (
        arith, poll_context-IsAware, connect-IsAware, try_transfer-IsBusy,
        sleep_before_retry-IsBusy,
      )

  upload_attempts-IsAware :
      (rounds attempt : ℕ) (file : String) (w : Worker W)
      → IsAware w
      → let w' = (upload_attempts process up ep opts rounds attempt file w).0 in
        IsAware w' ⊎ IsBusy w'
  unfolding upload_attempts
  upload_attempts-IsAware zero attempt file w c = inl c
  upload_attempts-IsAware (suc rounds) attempt file w c =
      let w1 = (attempt_once process up ep opts file attempt w).0 in
      ground (
        arith,
        attempt_once-IsAware file attempt w c,
        upload_attempts-IsAware rounds (attempt + 1) file w1,
      )

  visit-IsAware :
      (file : String) (rest : List String) (t : Tally) (w : Worker W)
      → IsAware w
      → let (w', t', stop) = visit process up ep opts file rest t w in
        (IsAware w' ⊎ IsBusy w') × (stop ≡ false → IsAware w')
  unfolding visit upload_file skip_remaining skip_given_up abandon
  visit-IsAware file rest t w c = grind (arith, poll_context-IsAware, upload_attempts-IsAware)

  visit_all-IsCalm :
      (files : List String) (t : Tally) (w : Worker W)
      → IsAware w
      → let w' = (visit_all process up ep opts files t w).0 in IsAware w' ⊎ IsBusy w'
  unfolding visit_all
  visit_all-IsCalm [] t w c = inl c
  visit_all-IsCalm (file ∷ rest) t w c =
      let (w1, t1, stop) = visit process up ep opts file rest t w in
      ground (arith, visit-IsAware file rest t w c, visit_all-IsCalm rest t1 w1)

  -- In a run whose context stays cancelled once it is, after the context was found cancelled there is
  -- no attempt, no call but to disconnect, no pause, and no event but the last report.
  pub run-IsCalm :
      (files : List String) (world : W)
      → IsCalm (run process up ep opts files (new_worker world)).log
  unfolding run new_worker read_clock disconnect
  run-IsCalm files world =
      let w1 = (read_clock process up ep opts (new_worker world)).0 in
      let t0 : Tally = record { succeeded = 0; failed = 0 } in
      elim (visit_all-IsCalm files t0 w1 (ground arith)) [
        | inl aware ↦ ground arith
        | inr busy ↦ ground arith
      ]
