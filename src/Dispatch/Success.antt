-- ===== src/Dispatch/Success.antt =====
-- dispatch.go: what stands behind a `FileSuccessEvent`.
use uploadfun.Base.{pos_part}
use uploadfun.Base.{ℕ, ◌≡◌, refl, String, ◌==◌, Bool, true, false, List, [], ◌∷◌, none, arith}
use uploadfun.Base.Text.{base}
use uploadfun.Upload.{Endpoint, Options, overwrite_delete_first, file_start, progress, file_success}
use uploadfun.Dispatch.Effects.{Uploader, Process, Action, Log, Worker, new_worker, emit}
use uploadfun.Dispatch.Loops.{upload_attempts-keeps, visit_all-keeps}
use uploadfun.Dispatch.Worker.{
  sleep_retry_delay, Tally, emit_progress, poll_context, read_clock, skip_remaining, dial, connect,
  report_giving_up, disconnect, sleep_before_retry, skip_given_up, abandon, delete_existing, send,
  confirm, transfer, try_transfer, reconnect, attempt_once, upload_file, visit, run,
}

-- The log without the progress reports at its end.
abbrev pub before_progress : Log → Log
before_progress (Action.event (progress _ _ _ _) ∷ l) = before_progress l
before_progress l = l

-- The log ends with the start of an attempt on the file.
abbrev pub WasStarted : Endpoint → String → Log → Type 0
WasStarted ep file (Action.event (file_start name f _) ∷ l) = (name ≡ ep.name) × (f ≡ file)
WasStarted ep file _ = ⊥

-- It ends so, and then with a successful delete of the remote file where the endpoint wants one.
abbrev pub WasCleared : Bool → Endpoint → String → Log → Type 0
WasCleared true ep file (Action.delete remote none ∷ l) =
    (remote ≡ base file) × WasStarted ep file l
WasCleared true ep file _ = ⊥
WasCleared false ep file l = WasStarted ep file l

-- It ends so, and then with a successful upload of the file under its base name.
abbrev pub WasSent : Endpoint → String → Log → Type 0
WasSent ep file (Action.upload f remote none ∷ l) =
    (f ≡ file)
    × (remote ≡ base file)
    × WasCleared (ep.overwrite == overwrite_delete_first) ep file (before_progress l)
WasSent ep file _ = ⊥

-- It ends so, and then, unless verification is off, with a successful verification by the method.
abbrev pub WasChecked : Bool → Endpoint → String → String → Log → Type 0
WasChecked true ep file method l = (method ≡ "") × WasSent ep file l
WasChecked false ep file method (Action.verify f remote m none ∷ l) =
    (f ≡ file) × (remote ≡ base file) × (m ≡ method) × WasSent ep file l
WasChecked false ep file method _ = ⊥

abbrev pub Justified : Endpoint → Options → Action → Log → Type 0
Justified ep opts (Action.event (file_success name file method _)) l =
    (name ≡ ep.name) × WasChecked opts.no_verify ep file method l
Justified ep opts _ l = Unit {0}

-- Every success in the log is justified by the entries just before it.
abbrev pub IsJustified : Endpoint → Options → Log → Type 0
IsJustified ep opts [] = Unit
IsJustified ep opts (a ∷ l) = Justified ep opts a l × IsJustified ep opts l

before_progress-of_WasStarted :
    (ep : Endpoint) (file : String) (l : Log) → WasStarted ep file l → before_progress l ≡ l
before_progress-of_WasStarted ep file [] s = refl
before_progress-of_WasStarted ep file (Action.event (progress _ _ _ _) ∷ l) s = absurd s
before_progress-of_WasStarted ep file (_ ∷ l) s = refl

module _ (ep : Endpoint) (opts : Options) {W : Type 0} where
  emit_progress-IsJustified :
      (name file : String) (steps : List (ℕ × ℕ)) (w : Worker W)
      → IsJustified ep opts w.log
      → IsJustified ep opts (emit_progress name file steps w).log
        × (before_progress (emit_progress name file steps w).log ≡ before_progress w.log)
  unfolding emit_progress
  emit_progress-IsJustified name file [] w j = (j, refl)
  emit_progress-IsJustified name file ((sent, total) ∷ steps) w j =
      emit_progress-IsJustified name file steps (emit (progress name file sent total) w) (tt, j)

module _ {W : Type 0} (process : Process W) (up : Uploader W) (ep : Endpoint) (opts : Options) where
  send-WasSent :
      (file : String) (w : Worker W)
      → IsJustified ep opts w.log
      → WasCleared (ep.overwrite == overwrite_delete_first) ep file (before_progress w.log)
      → let (w', err) = send process up ep opts file (base file) w in
        IsJustified ep opts w'.log × (err ≡ none → WasSent ep file w'.log)
  unfolding send
  send-WasSent file w j c =
      let (steps, err, world) = up.upload file (base file) w.world in
      let (j', same) =
        emit_progress-IsJustified ep opts ep.name file steps (record w { world = world }) j in
      ((tt, j'), λ e. rw (e, same) (refl, refl, c))

  delete_existing-WasCleared :
      (file : String) (w : Worker W)
      → IsJustified ep opts w.log
      → WasStarted ep file w.log
      → let (w', err) = delete_existing process up ep opts (base file) w in
        IsJustified ep opts w'.log
        × (err ≡ none
            → WasCleared (ep.overwrite == overwrite_delete_first) ep file (before_progress w'.log))
  unfolding delete_existing
  delete_existing-WasCleared file w j s =
      ground (arith, before_progress-of_WasStarted ep file w.log s)

  confirm-WasChecked :
      (file : String) (w : Worker W)
      → IsJustified ep opts w.log
      → WasSent ep file w.log
      → let (w', method, err) = confirm process up ep opts file (base file) w in
        IsJustified ep opts w'.log × (err ≡ none → WasChecked false ep file method w'.log)
  unfolding confirm
  confirm-WasChecked file w j s = ground arith

  transfer-WasChecked :
      (file : String) (w : Worker W)
      → IsJustified ep opts w.log
      → WasStarted ep file w.log
      → let (w', method, err) = transfer process up ep opts file (base file) w in
        IsJustified ep opts w'.log × (err ≡ none → WasChecked opts.no_verify ep file method w'.log)
  unfolding transfer
  transfer-WasChecked file w j s =
      grind (arith, delete_existing-WasCleared, send-WasSent, confirm-WasChecked)

  try_transfer-IsJustified :
      (file : String) (attempt : ℕ) (w : Worker W)
      → IsJustified ep opts w.log
      → IsJustified ep opts (try_transfer process up ep opts file attempt w).0.log
  unfolding try_transfer read_clock disconnect sleep_before_retry sleep_retry_delay
  try_transfer-IsJustified file attempt w j = grind (arith, transfer-WasChecked)

  attempt_once-IsJustified :
      (file : String) (attempt : ℕ) (w : Worker W)
      → IsJustified ep opts w.log
      → IsJustified ep opts (attempt_once process up ep opts file attempt w).0.log
  unfolding attempt_once poll_context reconnect connect dial report_giving_up sleep_before_retry
      sleep_retry_delay
  attempt_once-IsJustified file attempt w j = grind (arith, try_transfer-IsJustified)

  visit-IsJustified :
      (file : String) (rest : List String) (t : Tally) (w : Worker W)
      → IsJustified ep opts w.log
      → IsJustified ep opts (visit process up ep opts file rest t w).0.log
  unfolding visit poll_context skip_remaining skip_given_up upload_file abandon
  visit-IsJustified file rest t w j =
      let w1 = (poll_context process up ep opts w).0 in
      ground (
        arith,
        upload_attempts-keeps process up ep opts (λ (v : Worker W). IsJustified ep opts v.log)
            attempt_once-IsJustified (pos_part ep.attempts) 1 file w1,
      )

  -- In the log of a run each `FileSuccessEvent` stands behind one attempt on that file that did all
  -- that the options ask, with nothing else in between but progress reports: the attempt's start, a
  -- successful delete of the file's base name (for the delete-first mode only), a successful upload
  -- to that name and, unless verification is off, a successful verification by the method that the
  -- event names.
  pub run-IsJustified :
      (files : List String) (world : W)
      → IsJustified ep opts (run process up ep opts files (new_worker world)).log
  unfolding run new_worker read_clock disconnect
  run-IsJustified files world =
      let w1 = (read_clock process up ep opts (new_worker world)).0 in
      ground (
        arith,
        visit_all-keeps process up ep opts (λ (v : Worker W). IsJustified ep opts v.log)
            visit-IsJustified files (record { succeeded = 0; failed = 0 }) w1,
      )
