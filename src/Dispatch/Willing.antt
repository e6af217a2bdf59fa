-- ===== src/Dispatch/Willing.antt =====
-- dispatch.go: a run where nothing goes wrong.
use mathlib.Core.List.{reverse}
use uploadfun.Base.{
  ℕ, zero, suc, ◌≤◌, ◌≡◌, refl, ℤ, pos_part, String, true, false, List, [], ◌∷◌, none, arith,
}
use uploadfun.Upload.{Endpoint, Options, progress}
use uploadfun.Dispatch.Effects.{Uploader, Process, Worker, new_worker, emit}
use uploadfun.Dispatch.Worker.{
  settled, Tally, emit_progress, poll_context, read_clock, circuit_open, dial, connect, disconnect,
  delete_existing, send, confirm, transfer, try_transfer, reconnect, attempt_once, upload_attempts,
  connect_ok, upload_file, visit, run,
}
use uploadfun.Dispatch.Tally.{success_files}
use uploadfun.Dispatch.Permanent.{was_refused}
use uploadfun.Dispatch.Budget.{errors, was_canceled}
use uploadfun.Dispatch.Recovery.{run-IsTransient}
use uploadfun.Dispatch.Loops.{visit_all-keeps}

-- The context is never cancelled, and while the world is ready, or live once it was connected, no call
-- fails and it stays so.
pub record IsWilling {W : Type 0} (process : Process W) (up : Uploader W) (Ready Live : W → Type 0)
    : Type 0 where
  pub context : (w : W) → (process.ctx_err w).0 ≡ none
  pub ready_context : (w : W) → Ready w → Ready (process.ctx_err w).1
  pub live_context : (w : W) → Live w → Live (process.ctx_err w).1
  pub ready_clock : (w : W) → Ready w → Ready (process.now w).1
  pub live_clock : (w : W) → Live w → Live (process.now w).1
  pub connect :
      (timeout : ℤ) (ep : Endpoint) (w : W)
      → Ready w
      → let (err, w') = up.connect timeout ep w in (err ≡ none) × Live w'
  pub delete :
      (remote : String) (w : W)
      → Live w
      → let (err, w') = up.delete remote w in (err ≡ none) × Live w'
  pub upload :
      (file remote : String) (w : W)
      → Live w
      → let (steps, err, w') = up.upload file remote w in (err ≡ none) × Live w'
  pub verify :
      (file remote : String) (w : W)
      → Live w
      → let (method, err, w') = up.verify file remote w in (err ≡ none) × Live w'

-- Nothing has gone wrong.
record IsFine {W : Type 0} (Ready Live : W → Type 0) (w : Worker W) : Type 0 where
  no_errors : errors w.log ≡ 0
  not_canceled : was_canceled w.log ≡ false
  not_refused : was_refused w.log ≡ false
  no_failures : w.consecutive_connect_failures ≡ 0
  not_given_up : w.permanent_err ≡ none
  ready : w.connected ≡ false → Ready w.world
  live : w.connected ≡ true → Live w.world

emit_progress-IsFine :
    {W : Type 0} (Ready Live : W → Type 0) (name file : String) (steps : List (ℕ × ℕ))
    (w : Worker W)
    → IsFine Ready Live w
    → let w' = emit_progress name file steps w in
      IsFine Ready Live w' × (w'.connected ≡ w.connected)
unfolding emit_progress
emit_progress-IsFine Ready Live name file [] w c = (c, refl)
emit_progress-IsFine Ready Live name file ((sent, total) ∷ steps) w c =
    emit_progress-IsFine Ready Live name file steps (emit (progress name file sent total) w)
      (ground arith)

module _ {W : Type 0} (process : Process W) (up : Uploader W) (ep : Endpoint) (opts : Options)
    (Ready Live : W → Type 0) (willing : IsWilling process up Ready Live) where
  read_clock-IsFine :
      (w : Worker W)
      → IsFine Ready Live w
      → let w' = (read_clock process up ep opts w).0 in
        IsFine Ready Live w' × (w'.connected ≡ w.connected)
  unfolding read_clock
  read_clock-IsFine w c = ground (arith, willing.ready_clock w.world, willing.live_clock w.world)

  poll_context-IsFine :
      (w : Worker W)
      → IsFine Ready Live w
      → let (w', canceled) = poll_context process up ep opts w in
        IsFine Ready Live w' × (w'.connected ≡ w.connected) × (canceled ≡ false)
  unfolding poll_context
  poll_context-IsFine w c =
      ground (
        arith,
        willing.context w.world,
        willing.ready_context w.world,
        willing.live_context w.world,
      )

  delete_existing-IsFine :
      (remote : String) (w : Worker W)
      → w.connected ≡ true
      → IsFine Ready Live w
      → let (w', err) = delete_existing process up ep opts remote w in
        IsFine Ready Live w' × (w'.connected ≡ true) × (err ≡ none)
  unfolding delete_existing
  delete_existing-IsFine remote w up_now c =
      ground (arith, willing.delete remote w.world (c.live up_now))

  send-IsFine :
      (file remote : String) (w : Worker W)
      → w.connected ≡ true
      → IsFine Ready Live w
      → let (w', err) = send process up ep opts file remote w in
        IsFine Ready Live w' × (w'.connected ≡ true) × (err ≡ none)
  unfolding send
  send-IsFine file remote w up_now c =
      let (none_err, live) = willing.upload file remote w.world (c.live up_now) in
      let (steps, err, world) = up.upload file remote w.world in
      let sent = emit_progress-IsFine Ready Live ep.name file steps (record w { world = world }) in
      ground (arith, none_err, live, sent)

  confirm-IsFine :
      (file remote : String) (w : Worker W)
      → w.connected ≡ true
      → IsFine Ready Live w
      → let (w', method, err) = confirm process up ep opts file remote w in
        IsFine Ready Live w' × (w'.connected ≡ true) × (err ≡ none)
  unfolding confirm
  confirm-IsFine file remote w up_now c =
      ground (arith, willing.verify file remote w.world (c.live up_now))

  transfer-IsFine :
      (file remote : String) (w : Worker W)
      → w.connected ≡ true
      → IsFine Ready Live w
      → let (w', method, err) = transfer process up ep opts file remote w in
        IsFine Ready Live w' × (w'.connected ≡ true) × (err ≡ none)
  unfolding transfer
  transfer-IsFine file remote w up_now c =
      grind (arith, delete_existing-IsFine, send-IsFine, confirm-IsFine)

  try_transfer-IsFine :
      (file : String) (attempt : ℕ) (w : Worker W)
      → w.connected ≡ true
      → IsFine Ready Live w
      → let (w', v) = try_transfer process up ep opts file attempt w in
        IsFine Ready Live w' × (v ≡ settled true)
  unfolding try_transfer
  try_transfer-IsFine file attempt w up_now c = grind (arith, read_clock-IsFine, transfer-IsFine)

  connect-IsFine :
      (file : String) (attempt : ℕ) (w : Worker W)
      → w.connected ≡ false
      → IsFine Ready Live w
      → let (w', result) = connect process up ep opts file attempt w in
        IsFine Ready Live w' × (w'.connected ≡ true) × (result ≡ connect_ok)
  unfolding connect dial
  connect-IsFine file attempt w idle c =
      ground (arith, willing.connect ep.connect_timeout ep w.world (c.ready idle))

  attempt_once-IsFine :
      (file : String) (attempt : ℕ) (w : Worker W)
      → IsFine Ready Live w
      → let (w', v) = attempt_once process up ep opts file attempt w in
        IsFine Ready Live w' × (v ≡ settled true)
  unfolding attempt_once reconnect
  attempt_once-IsFine file attempt w c =
      grind (arith, poll_context-IsFine, connect-IsFine, try_transfer-IsFine)

  upload_attempts-IsFine :
      (rounds attempt : ℕ) (file : String) (w : Worker W)
      → IsFine Ready Live w
      → IsFine Ready Live (upload_attempts process up ep opts rounds attempt file w).0
  unfolding upload_attempts
  upload_attempts-IsFine zero attempt file w c = c
  upload_attempts-IsFine (suc rounds) attempt file w c =
      ground (arith, attempt_once-IsFine file attempt w c)

  visit-IsFine :
      (file : String) (rest : List String) (t : Tally) (w : Worker W)
      → 1 ≤ pos_part ep.max_consecutive_connect_failures
      → IsFine Ready Live w
      → IsFine Ready Live (visit process up ep opts file rest t w).0
  unfolding visit upload_file circuit_open
  visit-IsFine file rest t w limit c = grind (arith, poll_context-IsFine, upload_attempts-IsFine)

  run-IsFine :
      (files : List String) (world : W)
      → Ready world
      → 1 ≤ pos_part ep.max_consecutive_connect_failures
      → let l = (run process up ep opts files (new_worker world)).log in
        (errors l ≡ 0) × (was_canceled l ≡ false) × (was_refused l ≡ false)
  unfolding run new_worker read_clock disconnect
  run-IsFine files world ready limit =
      let w1 = (read_clock process up ep opts (new_worker world)).0 in
      let t0 : Tally = record { succeeded = 0; failed = 0 } in
      let fine =
        visit_all-keeps process up ep opts (λ (w : Worker W). IsFine Ready Live w)
          (λ file rest t w c. visit-IsFine file rest t w limit c) files t0 w1
          (read_clock-IsFine (new_worker world) (ground (arith, ready))).0 in
      ground (arith, fine)

  -- Where no call fails and the context is never cancelled, a run uploads every file, in order; the
  -- endpoint has at least one attempt and tolerates at least one failed connect, as every endpoint
  -- that is loaded does.
  pub run-IsWilling :
      (files : List String) (world : W)
      → Ready world
      → 1 ≤ pos_part ep.attempts
      → 1 ≤ pos_part ep.max_consecutive_connect_failures
      → success_files (run process up ep opts files (new_worker world)).log ≡ reverse files
  run-IsWilling files world ready attempts limit = run-IsTransient process up ep opts files world (
      let (errs, context, permission) = run-IsFine files world ready limit in
      record {
        attempts = omega (arith, errs);
        connects = omega (arith, errs);
        context = context;
        permission = permission;
      })
