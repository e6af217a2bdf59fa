-- ===== src/Dispatch/Session.antt =====
-- dispatch.go: the connection of a worker. The calls of a log follow the protocol of a session:
-- nothing is transferred outside a connection, and no connection is opened inside another.
use uploadfun.Base.{
  pos_part, ℕ, ◌≡◌, refl, String, Bool, true, false, List, [], ◌∷◌, none, some, arith,
}
use uploadfun.Upload.{Endpoint, Options}
use uploadfun.Dispatch.Effects.{Uploader, Process, Action, Log, Worker, new_worker}
use uploadfun.Dispatch.Loops.{upload_attempts-keeps, visit_all-keeps}
use uploadfun.Dispatch.Worker.{
  sleep_retry_delay, Tally, emit_progress, poll_context, read_clock, skip_remaining, dial, connect,
  report_giving_up, disconnect, sleep_before_retry, skip_given_up, abandon, delete_existing, send,
  confirm, transfer, try_transfer, reconnect, attempt_once, upload_file, visit, run,
}

-- Whether a connection is open after the entries of a log.
abbrev pub is_open : Log → Bool
is_open [] = false
is_open (Action.connect none ∷ l) = true
is_open (Action.connect (some e) ∷ l) = is_open l
is_open (Action.disconnect ∷ l) = false
is_open (_ ∷ l) = is_open l

-- Whether a call may be made, by whether a connection is open.
abbrev pub Allowed : Action → Bool → Type 0
Allowed (Action.connect _) o = o ≡ false
Allowed Action.disconnect o = o ≡ true
Allowed (Action.delete _ _) o = o ≡ true
Allowed (Action.upload _ _ _) o = o ≡ true
Allowed (Action.verify _ _ _ _) o = o ≡ true
Allowed _ o = Unit {0}

-- Every call of the log was allowed when it was made.
abbrev pub IsSession : Log → Type 0
IsSession [] = Unit
IsSession (a ∷ l) = Allowed a (is_open l) × IsSession l

-- The worker's flag says whether its log has a connection open.
pub record IsConsistent {W : Type 0} (w : Worker W) : Type 0 where
  pub session : IsSession w.log
  pub flag : is_open w.log ≡ w.connected

emit_progress-IsConsistent :
    {W : Type 0} (name file : String) (steps : List (ℕ × ℕ)) (w : Worker W)
    → IsConsistent w
    → IsConsistent (emit_progress name file steps w)
      × ((emit_progress name file steps w).connected ≡ w.connected)
unfolding emit_progress
emit_progress-IsConsistent name file [] w c = (c, refl)
emit_progress-IsConsistent name file (_ ∷ steps) w c =
    emit_progress-IsConsistent name file steps _ (ground arith)

module _ {W : Type 0} (process : Process W) (up : Uploader W) (ep : Endpoint) (opts : Options) where
  send-IsConsistent :
      (file remote : String) (w : Worker W)
      → w.connected ≡ true
      → IsConsistent w
      → IsConsistent (send process up ep opts file remote w).0
        × ((send process up ep opts file remote w).0.connected ≡ true)
  unfolding send
  send-IsConsistent file remote w live c =
      let (steps, err, world) = up.upload file remote w.world in
      ground (
        arith,
        emit_progress-IsConsistent ep.name file steps (record w { world = world }) (ground arith),
      )

  transfer-IsConsistent :
      (file remote : String) (w : Worker W)
      → w.connected ≡ true
      → IsConsistent w
      → IsConsistent (transfer process up ep opts file remote w).0
        × ((transfer process up ep opts file remote w).0.connected ≡ true)
  unfolding transfer delete_existing confirm
  transfer-IsConsistent file remote w live c = grind (arith, send-IsConsistent)

  try_transfer-IsConsistent :
      (file : String) (attempt : ℕ) (w : Worker W)
      → w.connected ≡ true
      → IsConsistent w
      → IsConsistent (try_transfer process up ep opts file attempt w).0
  unfolding try_transfer read_clock disconnect sleep_before_retry sleep_retry_delay
  try_transfer-IsConsistent file attempt w live c = grind (arith, transfer-IsConsistent)

  reconnect-IsConsistent :
      (file : String) (attempt : ℕ) (w : Worker W)
      → w.connected ≡ false
      → IsConsistent w
      → IsConsistent (reconnect process up ep opts file attempt w).0
  unfolding reconnect connect dial poll_context report_giving_up sleep_before_retry
      sleep_retry_delay
  reconnect-IsConsistent file attempt w idle c = grind (arith, try_transfer-IsConsistent)

  attempt_once-IsConsistent :
      (file : String) (attempt : ℕ) (w : Worker W)
      → IsConsistent w
      → IsConsistent (attempt_once process up ep opts file attempt w).0
  unfolding attempt_once poll_context
  attempt_once-IsConsistent file attempt w c =
      grind (arith, try_transfer-IsConsistent, reconnect-IsConsistent)

  visit-IsConsistent :
      (file : String) (rest : List String) (t : Tally) (w : Worker W)
      → IsConsistent w
      → IsConsistent (visit process up ep opts file rest t w).0
  unfolding visit poll_context skip_remaining skip_given_up upload_file abandon
  visit-IsConsistent file rest t w c = ground (
    arith,
    upload_attempts-keeps process up ep opts (λ (v : Worker W). IsConsistent v)
        attempt_once-IsConsistent (pos_part ep.attempts) 1 file
        (poll_context process up ep opts w).0,
  )

  -- A run on any files, whatever the uploader and the process do, calls the uploader only within the
  -- protocol of a session (no connect while connected; no delete, upload, verify or disconnect while
  -- not), and when it is over the connection is closed.
  pub run-IsSession :
      (files : List String) (world : W)
      → let l = (run process up ep opts files (new_worker world)).log in
        IsSession l × (is_open l ≡ false)
  unfolding run new_worker read_clock disconnect
  run-IsSession files world = ground (
    arith,
    visit_all-keeps process up ep opts (λ (v : Worker W). IsConsistent v) visit-IsConsistent files
        (record { succeeded = 0; failed = 0 }) (read_clock process up ep opts (new_worker world)).0,
  )
