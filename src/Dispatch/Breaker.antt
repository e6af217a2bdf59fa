-- ===== src/Dispatch/Breaker.antt =====
-- dispatch.go: the circuit breaker of an endpoint, `consecutiveConnectFailures`.
use uploadfun.Base.{
  ℕ, zero, suc, ◌+◌, ◌≡◌, refl, pos, leb_ℤ, String, Bool, true, false, not, ◌&&◌, List, [], ◌∷◌,
  none, some, arith, if◌then◌else◌,
}
use uploadfun.Upload.{Endpoint, Options, progress, endpoint_unreachable}
use uploadfun.Dispatch.Effects.{Uploader, Process, Action, Log, Worker, new_worker, emit}
use uploadfun.Dispatch.Loops.{visit_all-keeps}
use uploadfun.Dispatch.Worker.{
  sleep_retry_delay, retry, Tally, emit_progress, poll_context, read_clock, circuit_open,
  skip_remaining, dial, connect, report_giving_up, disconnect, sleep_before_retry, skip_given_up,
  abandon, delete_existing, send, confirm, transfer, try_transfer, reconnect, attempt_once,
  upload_attempts, upload_file, visit, run,
}

-- The last entry is a connect that failed.
abbrev pub is_pending : Log → Bool
is_pending (Action.connect (some e) ∷ l) = true
is_pending _ = false

-- The failed connects since the last that succeeded. One that failed while the context was
-- cancelled, as the code asks right after it, does not count.
abbrev pub failures : Log → ℕ
failures [] = 0
failures (Action.poll canceled ∷ l) =
    if not canceled && is_pending l then suc (failures l) else failures l
failures (Action.connect none ∷ l) = 0
failures (_ ∷ l) = failures l

abbrev pub Limited : Endpoint → Action → Log → Type 0
Limited ep (Action.connect _) l =
    leb_ℤ ep.max_consecutive_connect_failures (pos (failures l)) ≡ false
Limited ep (Action.event (endpoint_unreachable _ n _)) l =
    (n ≡ failures l) × (leb_ℤ ep.max_consecutive_connect_failures (pos n) ≡ true)
Limited ep _ l = Unit {0}

abbrev pub IsLimited : Endpoint → Log → Type 0
IsLimited ep [] = Unit
IsLimited ep (a ∷ l) = Limited ep a l × IsLimited ep l

-- The counter of the worker is right, and its log is within the limit.
record IsCounted {W : Type 0} (ep : Endpoint) (w : Worker W) : Type 0 where
  count : w.consecutive_connect_failures ≡ failures w.log
  calm : is_pending w.log ≡ false
  limited : IsLimited ep w.log

-- A step that makes no connect and asks nothing of the context keeps that, and the counter.
abbrev Aside : {W : Type 0} → Endpoint → Worker W → Worker W → Type 0
Aside ep v w = IsCounted ep v × (v.consecutive_connect_failures ≡ w.consecutive_connect_failures)

emit_progress-Aside :
    {W : Type 0} (ep : Endpoint) (name file : String) (steps : List (ℕ × ℕ)) (w : Worker W)
    → IsCounted ep w
    → Aside ep (emit_progress name file steps w) w
unfolding emit_progress
emit_progress-Aside ep name file [] w c = (c, refl)
emit_progress-Aside ep name file ((sent, total) ∷ steps) w c =
    emit_progress-Aside ep name file steps (emit (progress name file sent total) w) (ground arith)

module _ {W : Type 0} (process : Process W) (up : Uploader W) (ep : Endpoint) (opts : Options) where
  send-Aside :
      (file remote : String) (w : Worker W)
      → IsCounted ep w
      → Aside ep (send process up ep opts file remote w).0 w
  unfolding send
  send-Aside file remote w c =
      let (steps, err, world) = up.upload file remote w.world in
      ground (
        arith,
        emit_progress-Aside ep ep.name file steps (record w { world = world }) (ground arith),
      )

  transfer-Aside :
      (file remote : String) (w : Worker W)
      → IsCounted ep w
      → Aside ep (transfer process up ep opts file remote w).0 w
  unfolding transfer delete_existing confirm
  transfer-Aside file remote w c = grind (arith, send-Aside)

  try_transfer-Aside :
      (file : String) (attempt : ℕ) (w : Worker W)
      → IsCounted ep w
      → Aside ep (try_transfer process up ep opts file attempt w).0 w
  unfolding try_transfer read_clock disconnect sleep_before_retry sleep_retry_delay
  try_transfer-Aside file attempt w c = grind (arith, transfer-Aside)

  reconnect-IsCounted :
      (file : String) (attempt : ℕ) (w : Worker W)
      → circuit_open process up ep opts w ≡ false
      → IsCounted ep w
      → let (w', v) = reconnect process up ep opts file attempt w in
        IsCounted ep w' × (v ≡ retry → circuit_open process up ep opts w' ≡ false)
  unfolding reconnect connect dial poll_context circuit_open report_giving_up sleep_before_retry
      sleep_retry_delay
  reconnect-IsCounted file attempt w closed c = grind (arith, try_transfer-Aside)

  attempt_once-IsCounted :
      (file : String) (attempt : ℕ) (w : Worker W)
      → circuit_open process up ep opts w ≡ false
      → IsCounted ep w
      → let (w', v) = attempt_once process up ep opts file attempt w in
        IsCounted ep w' × (v ≡ retry → circuit_open process up ep opts w' ≡ false)
  unfolding attempt_once poll_context circuit_open
  attempt_once-IsCounted file attempt w closed c =
      let w1 = (poll_context process up ep opts w).0 in
      ground (arith, try_transfer-Aside file attempt w1, reconnect-IsCounted file attempt w1)

  upload_attempts-IsCounted :
      (rounds attempt : ℕ) (file : String) (w : Worker W)
      → circuit_open process up ep opts w ≡ false
      → IsCounted ep w
      → IsCounted ep (upload_attempts process up ep opts rounds attempt file w).0
  unfolding upload_attempts
  upload_attempts-IsCounted zero attempt file w closed c = c
  upload_attempts-IsCounted (suc rounds) attempt file w closed c =
      let w1 = (attempt_once process up ep opts file attempt w).0 in
      ground (
        arith,
        attempt_once-IsCounted file attempt w closed c,
        upload_attempts-IsCounted rounds (attempt + 1) file w1,
      )

  visit-IsCounted :
      (file : String) (rest : List String) (t : Tally) (w : Worker W)
      → IsCounted ep w
      → IsCounted ep (visit process up ep opts file rest t w).0
  unfolding visit poll_context circuit_open skip_remaining skip_given_up upload_file abandon
  visit-IsCounted file rest t w c = grind (arith, upload_attempts-IsCounted)

  -- In a run a connect is made only while fewer connects in a row have failed than the endpoint
  -- tolerates (those that failed in a cancelled context not counted), over all its files; and an
  -- `EndpointUnreachableEvent` is sent only when that limit is reached, with that number.
  pub run-IsLimited :
      (files : List String) (world : W)
      → IsLimited ep (run process up ep opts files (new_worker world)).log
  unfolding run new_worker read_clock disconnect
  run-IsLimited files world =
      let w1 = (read_clock process up ep opts (new_worker world)).0 in
      ground (
        arith,
        visit_all-keeps process up ep opts (λ (v : Worker W). IsCounted ep v) visit-IsCounted files
            (record { succeeded = 0; failed = 0 }) w1,
      )
