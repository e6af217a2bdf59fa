-- ===== src/Dispatch/Tally.antt =====
-- dispatch.go: what `EndpointDoneEvent` reports agrees with the events sent before it.
use mathlib.Core.List.{reverse, reverse_aux}
use uploadfun.Base.{
  Option, none, some, ℤ, sub_ℕ, ℕ, zero, suc, ◌+◌, ◌≡◌, ◌≤◌, refl, String, true, false, List, [],
  ◌∷◌, arith, length, if◌then◌else◌, ◌⊎◌,
}
use uploadfun.Upload.{
  Endpoint, Options, UploadEvent, dry_run, progress, file_success, endpoint_done,
}
use uploadfun.Dispatch.Effects.{Uploader, Process, Action, Log, Worker, new_worker, emit}
use uploadfun.Dispatch.Worker.{
  sleep_retry_delay, Verdict, settled, Tally, emit_progress, poll_context, read_clock,
  skip_remaining, dial, connect, report_giving_up, disconnect, sleep_before_retry, skip_given_up,
  abandon, delete_existing, send, confirm, transfer, try_transfer, reconnect, attempt_once,
  upload_attempts, upload_file, visit, visit_all, run,
}

-- The files that a log reports as uploaded, the latest first.
abbrev pub success_files : Log → List String
success_files [] = []
success_files (Action.event (file_success _ file _ _) ∷ l) = file ∷ success_files l
success_files (_ ∷ l) = success_files l

-- The reports that end an endpoint's part, the latest first: its `EndpointDoneEvent`, or the
-- `DryRunEvent` in place of it.
abbrev pub reports : Log → List UploadEvent
reports [] = []
reports (Action.event (endpoint_done name s f elapsed) ∷ l) =
    endpoint_done name s f elapsed ∷ reports l
reports (Action.event (dry_run name files err) ∷ l) = dry_run name files err ∷ reports l
reports (_ ∷ l) = reports l

abbrev pub last_event : Log → Option UploadEvent
last_event [] = none
last_event (Action.event e ∷ l) = some e
last_event (_ ∷ l) = last_event l

-- Two logs report the same.
record SameReports (l' l : Log) : Type 0 where
  same_files : success_files l' ≡ success_files l
  same_reports : reports l' ≡ reports l

abbrev after_verdict : Verdict → String → List String → List String
after_verdict (settled true) file files = file ∷ files
after_verdict _ file files = files

emit_progress-SameReports :
    {W : Type 0} (name file : String) (steps : List (ℕ × ℕ)) (w : Worker W)
    → SameReports (emit_progress name file steps w).log w.log
unfolding emit_progress
emit_progress-SameReports name file [] w = ground arith
emit_progress-SameReports name file ((sent, total) ∷ steps) w =
    ground
      (arith, emit_progress-SameReports name file steps (emit (progress name file sent total) w))

module _ {W : Type 0} (process : Process W) (up : Uploader W) (ep : Endpoint) (opts : Options) where
  transfer-SameReports :
      (file remote : String) (w : Worker W)
      → SameReports (transfer process up ep opts file remote w).0.log w.log
  unfolding transfer delete_existing send confirm
  transfer-SameReports file remote w = grind (arith, emit_progress-SameReports)

  try_transfer-reports :
      (file : String) (attempt : ℕ) (w : Worker W)
      → let (w', v) = try_transfer process up ep opts file attempt w in
        (success_files w'.log ≡ after_verdict v file (success_files w.log))
        × (reports w'.log ≡ reports w.log)
  unfolding try_transfer read_clock disconnect sleep_before_retry sleep_retry_delay
  try_transfer-reports file attempt w = grind (arith, transfer-SameReports)

  attempt_once-reports :
      (file : String) (attempt : ℕ) (w : Worker W)
      → let (w', v) = attempt_once process up ep opts file attempt w in
        (success_files w'.log ≡ after_verdict v file (success_files w.log))
        × (reports w'.log ≡ reports w.log)
  unfolding attempt_once poll_context reconnect connect dial report_giving_up sleep_before_retry
      sleep_retry_delay
  attempt_once-reports file attempt w = grind (arith, try_transfer-reports)

  upload_attempts-reports :
      (rounds attempt : ℕ) (file : String) (w : Worker W)
      → let (w', done) = upload_attempts process up ep opts rounds attempt file w in
        (success_files w'.log ≡ (if done then file ∷ success_files w.log else success_files w.log))
        × (reports w'.log ≡ reports w.log)
  unfolding upload_attempts
  upload_attempts-reports zero attempt file w = (refl, refl)
  upload_attempts-reports (suc rounds) attempt file w = ground (
    arith,
    attempt_once-reports file attempt w,
    upload_attempts-reports rounds (attempt + 1) file
        (attempt_once process up ep opts file attempt w).0,
  )

  -- What one round of the loop in `run` adds.
  visit-reports :
      (file : String) (rest : List String) (t : Tally) (w : Worker W)
      → let (w', t', stop) = visit process up ep opts file rest t w in
        (reports w'.log ≡ reports w.log)
        × (length (success_files w'.log) + t.succeeded
            ≡ length (success_files w.log) + t'.succeeded)
        × (t.failed ≤ t'.failed)
        × (t'.succeeded + t'.failed
            ≡ t.succeeded + t.failed + (if stop then length (file ∷ rest) else 1))
        × (t'.failed ≡ t.failed → success_files w'.log ≡ file ∷ success_files w.log)
        × (t'.failed ≡ t.failed → (stop ≡ false) ⊎ (rest ≡ []))
  unfolding visit poll_context skip_remaining skip_given_up upload_file abandon
  visit-reports file rest t w = grind (arith, upload_attempts-reports)

  pub visit_all-reports :
      (files : List String) (t : Tally) (w : Worker W)
      → let (w', t') = visit_all process up ep opts files t w in
        (reports w'.log ≡ reports w.log)
        × (length (success_files w'.log) + t.succeeded
            ≡ length (success_files w.log) + t'.succeeded)
        × (t.failed ≤ t'.failed)
        × (t'.succeeded + t'.failed ≡ t.succeeded + t.failed + length files)
        × (t'.failed ≡ t.failed → success_files w'.log ≡ reverse_aux files (success_files w.log))
  unfolding visit_all
  visit_all-reports [] t w = ground arith
  visit_all-reports (file ∷ rest) t w =
      let (w1, t1, stop) = visit process up ep opts file rest t w in
      ground (arith, visit-reports file rest t w, visit_all-reports rest t1 w1)

  -- Whatever happens, a run sends one report, an `EndpointDoneEvent` with its endpoint's name, as its
  -- last event; the two counters of that report add up to the number of files, the first is the
  -- number of files reported as uploaded, and if the second is 0 these are exactly the files of the
  -- batch, in order.
  pub run-reports :
      (files : List String) (world : W)
      → let l = (run process up ep opts files (new_worker world)).log in
        (t : Tally) × (elapsed : ℤ) × (reports l
          ≡ endpoint_done ep.name t.succeeded t.failed elapsed ∷ [])
        × (last_event l ≡ some (endpoint_done ep.name t.succeeded t.failed elapsed))
        × (t.succeeded + t.failed ≡ length files)
        × (t.succeeded ≡ length (success_files l))
        × (t.failed ≡ 0 → success_files l ≡ reverse files)
  unfolding run new_worker read_clock disconnect
  run-reports files world =
      let (w1, start) = read_clock process up ep opts (new_worker world) in
      let t0 : Tally = record { succeeded = 0; failed = 0 } in
      let (w2, t) = visit_all process up ep opts files t0 w1 in
      let end = (read_clock process up ep opts w2).1 in
      let facts = visit_all-reports files t0 w1 in
      (
        t,
        sub_ℕ end start,
        ground (arith, facts),
        ground (arith, facts),
        ground (arith, facts),
        ground (arith, facts),
        ground (arith, facts),
      )
