-- ===== src/Dispatch/Budget.antt =====
-- dispatch.go: the budget of attempts that `uploadFile` has for a file.
use uploadfun.Base.{
  ℕ, zero, suc, ◌+◌, ◌≤◌, ◌≡◌, ◌⊎◌, pos_part, length, inr, ◌*◌, String, Bool, true, false, ◌||◌,
  List, [], ◌∷◌, is_some, arith,
}
use uploadfun.Upload.{Endpoint, Options, file_start, file_error, progress}
use uploadfun.Dispatch.Effects.{Uploader, Process, Action, Log, Worker, new_worker, emit}
use uploadfun.Dispatch.Worker.{
  sleep_retry_delay, settled, retry, Tally, emit_progress, poll_context, read_clock, circuit_open,
  skip_remaining, dial, connect, report_giving_up, disconnect, sleep_before_retry, skip_given_up,
  abandon, delete_existing, send, confirm, transfer, try_transfer, reconnect, attempt_once,
  upload_attempts, upload_file, visit, visit_all, run,
}

-- How many errors, attempt starts and connects a log has.
abbrev pub errors : Log → ℕ
errors [] = 0
errors (Action.event (file_error _ _ _ _ _) ∷ l) = suc (errors l)
errors (_ ∷ l) = errors l

abbrev pub starts : Log → ℕ
starts [] = 0
starts (Action.event (file_start _ _ _) ∷ l) = suc (starts l)
starts (_ ∷ l) = starts l

abbrev pub connects : Log → ℕ
connects [] = 0
connects (Action.connect _ ∷ l) = suc (connects l)
connects (_ ∷ l) = connects l

-- The context was found cancelled.
abbrev pub was_canceled : Log → Bool
was_canceled [] = false
was_canceled (Action.poll canceled ∷ l) = canceled || was_canceled l
was_canceled (_ ∷ l) = was_canceled l

record SameCounts (l' l : Log) : Type 0 where
  same_errors : errors l' ≡ errors l
  same_starts : starts l' ≡ starts l
  same_connects : connects l' ≡ connects l
  same_context : was_canceled l' ≡ was_canceled l

emit_progress-SameCounts :
    {W : Type 0} (name file : String) (steps : List (ℕ × ℕ)) (w : Worker W)
    → SameCounts (emit_progress name file steps w).log w.log
unfolding emit_progress
emit_progress-SameCounts name file [] w = ground arith
emit_progress-SameCounts name file ((sent, total) ∷ steps) w =
    ground
      (arith, emit_progress-SameCounts name file steps (emit (progress name file sent total) w))

module _ {W : Type 0} (process : Process W) (up : Uploader W) (ep : Endpoint) (opts : Options) where
  transfer-SameCounts :
      (file remote : String) (w : Worker W)
      → SameCounts (transfer process up ep opts file remote w).0.log w.log
  unfolding transfer delete_existing send confirm
  transfer-SameCounts file remote w = grind (arith, emit_progress-SameCounts)

  -- Why an attempt is the last although the file was not uploaded.
  abbrev pub Excused : Worker W → Type 0
  Excused w =
      (was_canceled w.log ≡ true)
      ⊎ (circuit_open process up ep opts w ≡ true)
      ⊎ (is_some w.permanent_err ≡ true)

  attempt_once-counts :
      (file : String) (attempt : ℕ) (w : Worker W)
      → let (w', v) = attempt_once process up ep opts file attempt w in
        (starts w'.log ≤ starts w.log + 1)
        × (connects w'.log ≤ connects w.log + 1)
        × (v ≡ settled false → Excused w')
        × (v ≡ retry → errors w'.log ≡ errors w.log + 1)
        × (v ≡ settled true → errors w'.log ≡ errors w.log)
  unfolding attempt_once poll_context reconnect connect dial report_giving_up sleep_before_retry
      sleep_retry_delay try_transfer read_clock disconnect circuit_open
  attempt_once-counts file attempt w = grind (arith, transfer-SameCounts)

  upload_attempts-counts :
      (rounds attempt : ℕ) (file : String) (w : Worker W)
      → let (w', done) = upload_attempts process up ep opts rounds attempt file w in
        (starts w'.log ≤ starts w.log + rounds)
        × (connects w'.log ≤ connects w.log + rounds)
        × (done ≡ false → Excused w' ⊎ (errors w'.log ≡ errors w.log + rounds))
  unfolding upload_attempts
  upload_attempts-counts zero attempt file w = (omega arith, omega arith, λ _. inr (omega arith))
  upload_attempts-counts (suc rounds) attempt file w =
      let w1 = (attempt_once process up ep opts file attempt w).0 in
      ground (
        arith,
        attempt_once-counts file attempt w,
        upload_attempts-counts rounds (attempt + 1) file w1,
      )

  -- A file that is not uploaded has had one reported error for each of the endpoint's attempts,
  -- unless the context was found cancelled, the endpoint counts as unreachable, or a permanent error
  -- is set; and in no case are there more attempt starts or connects than attempts.
  pub upload_file-counts :
      (file : String) (w : Worker W)
      → let (w', done) = upload_file process up ep opts file w in
        (starts w'.log ≤ starts w.log + pos_part ep.attempts)
        × (connects w'.log ≤ connects w.log + pos_part ep.attempts)
        × (done ≡ false → Excused w' ⊎ (errors w'.log ≡ errors w.log + pos_part ep.attempts))
  unfolding upload_file
  upload_file-counts file w = upload_attempts-counts (pos_part ep.attempts) 1 file w

  visit-counts :
      (file : String) (rest : List String) (t : Tally) (w : Worker W)
      → let w' = (visit process up ep opts file rest t w).0 in
        (starts w'.log ≤ starts w.log + pos_part ep.attempts)
        × (connects w'.log ≤ connects w.log + pos_part ep.attempts)
  unfolding visit poll_context skip_remaining skip_given_up abandon
  visit-counts file rest t w =
      let w1 = (poll_context process up ep opts w).0 in ground (arith, upload_file-counts file w1)

  visit_all-counts :
      (files : List String) (t : Tally) (w : Worker W)
      → let w' = (visit_all process up ep opts files t w).0 in
        (starts w'.log ≤ starts w.log + length files * pos_part ep.attempts)
        × (connects w'.log ≤ connects w.log + length files * pos_part ep.attempts)
  unfolding visit_all
  visit_all-counts [] t w = ground arith
  visit_all-counts (file ∷ rest) t w =
      let (w1, t1, stop) = visit process up ep opts file rest t w in
      ground (arith, visit-counts file rest t w, visit_all-counts rest t1 w1)

  -- The work of a run is bounded: at most as many attempt starts, and as many connects, as the
  -- endpoint's attempts times the number of files.
  pub run-counts :
      (files : List String) (world : W)
      → let l = (run process up ep opts files (new_worker world)).log in
        (starts l ≤ length files * pos_part ep.attempts)
        × (connects l ≤ length files * pos_part ep.attempts)
  unfolding run new_worker read_clock disconnect
  run-counts files world =
      let w1 = (read_clock process up ep opts (new_worker world)).0 in
      ground (arith, visit_all-counts files (record { succeeded = 0; failed = 0 }) w1)
