-- ===== src/Dispatch/Permanent.antt =====
-- dispatch.go: `permanentErr`. A transfer that is refused for lack of permission ends the batch.
use uploadfun.Base.{
  ℕ, zero, suc, ◌+◌, ◌≡◌, String, Bool, false, ◌||◌, List, [], ◌∷◌, Option, none, some, arith, Err,
  is_permission,
}
use uploadfun.Upload.{Endpoint, Options, file_start, progress}
use uploadfun.Dispatch.Effects.{Uploader, Process, Action, Log, Worker, new_worker, emit}
use uploadfun.Dispatch.Worker.{
  sleep_retry_delay, retry, Tally, emit_progress, poll_context, read_clock, skip_remaining, dial,
  connect, report_giving_up, disconnect, sleep_before_retry, skip_given_up, abandon,
  delete_existing, send, confirm, transfer, try_transfer, reconnect, attempt_once, upload_attempts,
  upload_file, visit, visit_all, run,
}

abbrev pub is_fatal : Option Err → Bool
is_fatal none = false
is_fatal (some e) = is_permission e

-- Some delete, upload or verify of the log failed with a permission error.
abbrev pub was_refused : Log → Bool
was_refused [] = false
was_refused (Action.delete _ err ∷ l) = is_fatal err || was_refused l
was_refused (Action.upload _ _ err ∷ l) = is_fatal err || was_refused l
was_refused (Action.verify _ _ _ err ∷ l) = is_fatal err || was_refused l
was_refused (_ ∷ l) = was_refused l

-- What may not come after such a refusal: a call (but to disconnect), a pause, the start of an
-- attempt.
abbrev pub Quiet : Action → Bool → Type 0
Quiet (Action.connect _) refused = refused ≡ false
Quiet (Action.delete _ _) refused = refused ≡ false
Quiet (Action.upload _ _ _) refused = refused ≡ false
Quiet (Action.verify _ _ _ _) refused = refused ≡ false
Quiet (Action.pause _) refused = refused ≡ false
Quiet (Action.event (file_start _ _ _)) refused = refused ≡ false
Quiet _ refused = Unit {0}

abbrev pub IsQuiet : Log → Type 0
IsQuiet [] = Unit
IsQuiet (a ∷ l) = Quiet a (was_refused l) × IsQuiet l

-- Nothing was refused so far.
record IsClear {W : Type 0} (w : Worker W) : Type 0 where
  quiet : IsQuiet w.log
  clear : was_refused w.log ≡ false
  no_error : w.permanent_err ≡ none

emit_progress-IsClear :
    {W : Type 0} (name file : String) (steps : List (ℕ × ℕ)) (w : Worker W)
    → IsClear w
    → IsClear (emit_progress name file steps w)
unfolding emit_progress
emit_progress-IsClear name file [] w c = c
emit_progress-IsClear name file ((sent, total) ∷ steps) w c =
    emit_progress-IsClear name file steps (emit (progress name file sent total) w) (ground arith)

-- The log is quiet, and a refusal in it is the error given.
abbrev Refused : {W : Type 0} → Option Err → Worker W → Type 0
Refused err w = IsQuiet w.log × (was_refused w.log ≡ is_fatal err) × (w.permanent_err ≡ none)

module _ {W : Type 0} (process : Process W) (up : Uploader W) (ep : Endpoint) (opts : Options) where
  send-Refused :
      (file remote : String) (w : Worker W)
      → IsClear w
      → let (w', err) = send process up ep opts file remote w in Refused err w'
  unfolding send
  send-Refused file remote w c =
      let (steps, err, world) = up.upload file remote w.world in
      ground (
        arith,
        emit_progress-IsClear ep.name file steps (record w { world = world }) (ground arith),
      )

  transfer-Refused :
      (file remote : String) (w : Worker W)
      → IsClear w
      → let (w', method, err) = transfer process up ep opts file remote w in Refused err w'
  unfolding transfer delete_existing confirm is_permission
  transfer-Refused file remote w c = grind (arith, send-Refused)

  -- An attempt that does not end the batch leaves nothing refused.
  try_transfer-IsQuiet :
      (file : String) (attempt : ℕ) (w : Worker W)
      → IsClear w
      → let (w', v) = try_transfer process up ep opts file attempt w in
        IsQuiet w'.log × (w'.permanent_err ≡ none → IsClear w') × (v ≡ retry → IsClear w')
  unfolding try_transfer read_clock disconnect sleep_before_retry sleep_retry_delay
  try_transfer-IsQuiet file attempt w c = grind (arith, transfer-Refused)

  attempt_once-IsQuiet :
      (file : String) (attempt : ℕ) (w : Worker W)
      → IsClear w
      → let (w', v) = attempt_once process up ep opts file attempt w in
        IsQuiet w'.log × (w'.permanent_err ≡ none → IsClear w') × (v ≡ retry → IsClear w')
  unfolding attempt_once poll_context reconnect connect dial report_giving_up sleep_before_retry
      sleep_retry_delay
  attempt_once-IsQuiet file attempt w c = grind (arith, try_transfer-IsQuiet)

  upload_attempts-IsQuiet :
      (rounds attempt : ℕ) (file : String) (w : Worker W)
      → IsClear w
      → let w' = (upload_attempts process up ep opts rounds attempt file w).0 in
        IsQuiet w'.log × (w'.permanent_err ≡ none → IsClear w')
  unfolding upload_attempts
  upload_attempts-IsQuiet zero attempt file w c = (c.quiet, λ _. c)
  upload_attempts-IsQuiet (suc rounds) attempt file w c =
      let w1 = (attempt_once process up ep opts file attempt w).0 in
      ground (
        arith,
        attempt_once-IsQuiet file attempt w c,
        upload_attempts-IsQuiet rounds (attempt + 1) file w1,
      )

  visit-IsQuiet :
      (file : String) (rest : List String) (t : Tally) (w : Worker W)
      → IsClear w
      → let (w', t', stop) = visit process up ep opts file rest t w in
        IsQuiet w'.log × (stop ≡ false → IsClear w')
  unfolding visit poll_context skip_remaining skip_given_up upload_file abandon
  visit-IsQuiet file rest t w c = grind (arith, upload_attempts-IsQuiet)

  visit_all-IsQuiet :
      (files : List String) (t : Tally) (w : Worker W)
      → IsClear w
      → IsQuiet (visit_all process up ep opts files t w).0.log
  unfolding visit_all
  visit_all-IsQuiet [] t w c = c.quiet
  visit_all-IsQuiet (file ∷ rest) t w c =
      let (w1, t1, stop) = visit process up ep opts file rest t w in
      ground (arith, visit-IsQuiet file rest t w c, visit_all-IsQuiet rest t1 w1)

  -- In a run, once a delete, upload or verify has failed with a permission error, no attempt is
  -- started, nothing is waited for, and the uploader is not called again but to disconnect.
  pub run-IsQuiet :
      (files : List String) (world : W)
      → IsQuiet (run process up ep opts files (new_worker world)).log
  unfolding run new_worker read_clock disconnect
  run-IsQuiet files world =
      let w1 = (read_clock process up ep opts (new_worker world)).0 in
      ground
        (arith, visit_all-IsQuiet files (record { succeeded = 0; failed = 0 }) w1 (ground arith))
