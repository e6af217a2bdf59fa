-- ===== src/Dispatch/Recovery.antt =====
-- dispatch.go: retries make up for faults. A run fails for some file only if its log shows why.
use mathlib.Core.List.{reverse}
use uploadfun.Base.{
  ℕ, zero, suc, ◌+◌, ◌≤◌, ◌<◌, ◌≡◌, ◌⊎◌, pos_part, String, true, false, List, [], ◌∷◌, is_some,
  arith, is_permission,
}
use uploadfun.Upload.{Endpoint, Options, progress}
use uploadfun.Dispatch.Effects.{Uploader, Process, Log, Worker, new_worker, emit}
use uploadfun.Dispatch.Worker.{
  sleep_retry_delay, settled, retry, Tally, emit_progress, poll_context, read_clock, circuit_open,
  skip_remaining, dial, connect, report_giving_up, disconnect, sleep_before_retry, skip_given_up,
  abandon, delete_existing, send, confirm, transfer, try_transfer, reconnect, attempt_once,
  upload_attempts, upload_file, visit, visit_all, run,
}
use uploadfun.Dispatch.Tally.{success_files, visit_all-reports}
use uploadfun.Dispatch.Permanent.{is_fatal, was_refused}
use uploadfun.Dispatch.Budget.{errors, was_canceled}

-- A log that goes on from another.
record Grows (l' l : Log) : Type 0 where
  more_errors : errors l ≤ errors l'
  still_canceled : was_canceled l ≡ true → was_canceled l' ≡ true
  still_refused : was_refused l ≡ true → was_refused l' ≡ true

-- The worker's fields are explained by its log.
record IsHonest {W : Type 0} (w : Worker W) : Type 0 where
  counted : w.consecutive_connect_failures ≤ errors w.log
  refused : is_some w.permanent_err ≡ true → was_refused w.log ≡ true

-- Fewer errors than the endpoint tolerates, no cancellation and no refusal.
pub record IsTransient (ep : Endpoint) (l : Log) : Type 0 where
  pub attempts : errors l < pos_part ep.attempts
  pub connects : errors l < pos_part ep.max_consecutive_connect_failures
  pub context : was_canceled l ≡ false
  pub permission : was_refused l ≡ false

-- A step that has no part in errors, cancellation or refusals.
record Aside {W : Type 0} (w' w : Worker W) : Type 0 where
  same_errors : errors w'.log ≡ errors w.log
  same_context : was_canceled w'.log ≡ was_canceled w.log
  same_count : w'.consecutive_connect_failures ≡ w.consecutive_connect_failures
  same_permanent : w'.permanent_err ≡ w.permanent_err

emit_progress-Aside :
    {W : Type 0} (name file : String) (steps : List (ℕ × ℕ)) (w : Worker W)
    → let w' = emit_progress name file steps w in
      Aside w' w × (was_refused w'.log ≡ was_refused w.log)
unfolding emit_progress
emit_progress-Aside name file [] w = ground arith
emit_progress-Aside name file ((sent, total) ∷ steps) w =
    ground (arith, emit_progress-Aside name file steps (emit (progress name file sent total) w))

module _ {W : Type 0} (process : Process W) (up : Uploader W) (ep : Endpoint) (opts : Options) where
  transfer-Aside :
      (file remote : String) (w : Worker W)
      → let (w', method, err) = transfer process up ep opts file remote w in
        Aside w' w
        × (is_fatal err ≡ true → was_refused w'.log ≡ true)
        × (was_refused w.log ≡ true → was_refused w'.log ≡ true)
  unfolding transfer delete_existing send confirm is_permission
  transfer-Aside file remote w = grind (arith, emit_progress-Aside)

  try_transfer-Grows :
      (file : String) (attempt : ℕ) (w : Worker W)
      → IsHonest w
      → let (w', v) = try_transfer process up ep opts file attempt w in
        Grows w'.log w.log
        × IsHonest w'
        × (v ≡ settled false → was_refused w'.log ≡ true)
        × (v ≡ retry → errors w'.log ≡ errors w.log + 1)
  unfolding try_transfer read_clock disconnect sleep_before_retry sleep_retry_delay
  try_transfer-Grows file attempt w c = grind (arith, transfer-Aside)

  -- Why a file is given up before its attempts are used up.
  abbrev Reason : Worker W → Type 0
  Reason w =
      (was_canceled w.log ≡ true)
      ⊎ (was_refused w.log ≡ true)
      ⊎ (pos_part ep.max_consecutive_connect_failures ≤ errors w.log)

  attempt_once-Grows :
      (file : String) (attempt : ℕ) (w : Worker W)
      → IsHonest w
      → let (w', v) = attempt_once process up ep opts file attempt w in
        Grows w'.log w.log
        × IsHonest w'
        × (v ≡ settled false → Reason w')
        × (v ≡ retry → errors w'.log ≡ errors w.log + 1)
  unfolding attempt_once poll_context reconnect connect dial report_giving_up sleep_before_retry
      sleep_retry_delay circuit_open
  attempt_once-Grows file attempt w c = grind (arith, try_transfer-Grows)

  upload_attempts-Grows :
      (rounds attempt : ℕ) (file : String) (w : Worker W)
      → IsHonest w
      → let (w', done) = upload_attempts process up ep opts rounds attempt file w in
        Grows w'.log w.log
        × IsHonest w'
        × (done ≡ false → Reason w' ⊎ (errors w.log + rounds ≤ errors w'.log))
  unfolding upload_attempts
  upload_attempts-Grows zero attempt file w c = ground arith
  upload_attempts-Grows (suc rounds) attempt file w c =
      let w1 = (attempt_once process up ep opts file attempt w).0 in
      ground (
        arith,
        attempt_once-Grows file attempt w c,
        upload_attempts-Grows rounds (attempt + 1) file w1,
      )

  visit-Grows :
      (file : String) (rest : List String) (t : Tally) (w : Worker W)
      → IsHonest w
      → let (w', t', stop) = visit process up ep opts file rest t w in
        Grows w'.log w.log
        × IsHonest w'
        × (IsTransient ep w'.log → (stop ≡ false) × (t'.failed ≡ t.failed))
  unfolding visit poll_context skip_remaining skip_given_up upload_file abandon circuit_open
  visit-Grows file rest t w c = grind (arith, upload_attempts-Grows)

  visit_all-Grows :
      (files : List String) (t : Tally) (w : Worker W)
      → IsHonest w
      → let (w', t') = visit_all process up ep opts files t w in
        Grows w'.log w.log × (IsTransient ep w'.log → t'.failed ≡ t.failed)
  unfolding visit_all
  visit_all-Grows [] t w c = ground arith
  visit_all-Grows (file ∷ rest) t w c =
      let (w1, t1, stop) = visit process up ep opts file rest t w in
      ground (arith, visit-Grows file rest t w c, visit_all-Grows rest t1 w1)

  -- If the log of a run has fewer errors in all than the endpoint has attempts for a file, and fewer
  -- than it has failed connects before it counts as unreachable, and neither a cancellation nor a
  -- permission error, then every file was uploaded, in order.
  pub run-IsTransient :
      (files : List String) (world : W)
      → IsTransient ep (run process up ep opts files (new_worker world)).log
      → success_files (run process up ep opts files (new_worker world)).log ≡ reverse files
  unfolding run new_worker read_clock disconnect
  run-IsTransient files world h =
      let w1 = (read_clock process up ep opts (new_worker world)).0 in
      let t0 : Tally = record { succeeded = 0; failed = 0 } in
      ground (
        arith,
        visit_all-Grows files t0 w1 (ground arith),
        visit_all-reports process up ep opts files t0 w1,
      )
