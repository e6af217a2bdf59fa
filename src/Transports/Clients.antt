-- ===== src/Transports/Clients.antt =====
-- transports.go and dispatch.go: the engine never calls a method on a nil client.
use uploadfun.Base.{
  sub_ℕ, ℕ, ◌≡◌, refl, pos_part, String, true, false, List, [], ◌∷◌, none, is_some, arith,
}
use uploadfun.Upload.{Endpoint, Options, progress, endpoint_done}
use uploadfun.Dispatch.Effects.{Uploader, Process, Worker, new_worker, emit}
use uploadfun.Dispatch.Loops.{upload_attempts-keeps, visit_all-keeps}
use uploadfun.Dispatch.Worker.{
  sleep_retry_delay, Tally, emit_progress, poll_context, read_clock, skip_remaining, dial, connect,
  report_giving_up, disconnect, sleep_before_retry, skip_given_up, abandon, delete_existing, send,
  confirm, transfer, try_transfer, reconnect, attempt_once, upload_file, visit, visit_all, run,
  connect_ok,
}
use uploadfun.Transports.Adapter.{
  LocalFiles, Adapted, Dial, connect_with, close_client, delete_remote, verify_remote, upload_open,
  upload_local, transport_uploader, around,
}

-- Nothing has panicked, and while the worker is connected there is a client.
pub record HasClient {W : Type 0} (w : Worker (Adapted W)) : Type 0 where
  pub sound : w.world.panicked ≡ false
  pub client : w.connected ≡ true → is_some w.world.client ≡ true

emit_progress-HasClient :
    {W : Type 0} (name file : String) (steps : List (ℕ × ℕ)) (w : Worker (Adapted W))
    → let w' = emit_progress name file steps w in
      (w'.world ≡ w.world) × (w'.connected ≡ w.connected)
unfolding emit_progress
emit_progress-HasClient name file [] w = (refl, refl)
emit_progress-HasClient name file ((sent, total) ∷ steps) w =
    emit_progress-HasClient name file steps (emit (progress name file sent total) w)

upload_local-client :
    {W : Type 0} (files : LocalFiles W) (file remote : String) (u : Adapted W)
    → is_some u.client ≡ true
    → let (steps, err, u') = upload_local files file remote u in
      (u'.panicked ≡ u.panicked) × (is_some u'.client ≡ true)
unfolding upload_local upload_open
upload_local-client files file remote u h = ground arith

module _ {W : Type 0} (process : Process W) (files : LocalFiles W) (dial_client : Dial W)
    (ep : Endpoint) (opts : Options) where
  abbrev up : Uploader (Adapted W)
  up = transport_uploader files dial_client

  send-HasClient :
      (file remote : String) (w : Worker (Adapted W))
      → w.connected ≡ true
      → HasClient w
      → let w' = (send (around process) up ep opts file remote w).0 in
        HasClient w' × (w'.connected ≡ true)
  unfolding send transport_uploader
  send-HasClient file remote w live c =
      let (steps, err, world) = upload_local files file remote w.world in
      ground (
        arith,
        upload_local-client files file remote w.world (c.client live),
        emit_progress-HasClient ep.name file steps (record w { world = world }),
      )

  delete_existing-HasClient :
      (remote : String) (w : Worker (Adapted W))
      → w.connected ≡ true
      → HasClient w
      → let w' = (delete_existing (around process) up ep opts remote w).0 in
        HasClient w' × (w'.connected ≡ true)
  unfolding delete_existing transport_uploader delete_remote
  delete_existing-HasClient remote w live c = ground (arith, c.client live)

  confirm-HasClient :
      (file remote : String) (w : Worker (Adapted W))
      → w.connected ≡ true
      → HasClient w
      → let w' = (confirm (around process) up ep opts file remote w).0 in
        HasClient w' × (w'.connected ≡ true)
  unfolding confirm transport_uploader verify_remote
  confirm-HasClient file remote w live c = ground (arith, c.client live)

  transfer-HasClient :
      (file remote : String) (w : Worker (Adapted W))
      → w.connected ≡ true
      → HasClient w
      → let w' = (transfer (around process) up ep opts file remote w).0 in
        HasClient w' × (w'.connected ≡ true)
  unfolding transfer
  transfer-HasClient file remote w live c =
      grind (arith, delete_existing-HasClient, send-HasClient, confirm-HasClient)

  disconnect-HasClient :
      (w : Worker (Adapted W)) → HasClient w → HasClient (disconnect (around process) up ep opts w)
  unfolding disconnect transport_uploader close_client
  disconnect-HasClient w c = ground (arith, c.client)

  read_clock-HasClient :
      (w : Worker (Adapted W))
      → HasClient w
      → let w' = (read_clock (around process) up ep opts w).0 in
        HasClient w' × (w'.connected ≡ w.connected)
  unfolding read_clock around
  read_clock-HasClient w c = ground arith

  poll_context-HasClient :
      (w : Worker (Adapted W))
      → HasClient w
      → let w' = (poll_context (around process) up ep opts w).0 in
        HasClient w' × (w'.connected ≡ w.connected)
  unfolding poll_context around
  poll_context-HasClient w c = ground arith

  sleep_before_retry-HasClient :
      (attempt : ℕ) (w : Worker (Adapted W))
      → HasClient w
      → HasClient (sleep_before_retry (around process) up ep opts attempt w)
  unfolding sleep_before_retry sleep_retry_delay around
  sleep_before_retry-HasClient attempt w c = ground arith

  try_transfer-HasClient :
      (file : String) (attempt : ℕ) (w : Worker (Adapted W))
      → w.connected ≡ true
      → HasClient w
      → HasClient (try_transfer (around process) up ep opts file attempt w).0
  unfolding try_transfer
  try_transfer-HasClient file attempt w live c = grind (
    arith, read_clock-HasClient, transfer-HasClient, disconnect-HasClient,
    sleep_before_retry-HasClient,
  )

  dial-HasClient :
      (w : Worker (Adapted W))
      → w.connected ≡ false
      → HasClient w
      → let (w', err) = dial (around process) up ep opts w in
        HasClient w' × (w'.connected ≡ false) × (err ≡ none → is_some w'.world.client ≡ true)
  unfolding dial transport_uploader connect_with
  dial-HasClient w idle c = ground arith

  connect-HasClient :
      (file : String) (attempt : ℕ) (w : Worker (Adapted W))
      → w.connected ≡ false
      → HasClient w
      → let (w', result) = connect (around process) up ep opts file attempt w in
        HasClient w' × (result ≡ connect_ok → w'.connected ≡ true)
  unfolding connect
  connect-HasClient file attempt w idle c = grind (arith, dial-HasClient, poll_context-HasClient)

  attempt_once-HasClient :
      (file : String) (attempt : ℕ) (w : Worker (Adapted W))
      → HasClient w
      → HasClient (attempt_once (around process) up ep opts file attempt w).0
  unfolding attempt_once reconnect report_giving_up
  attempt_once-HasClient file attempt w c = grind (
    arith, poll_context-HasClient, connect-HasClient, try_transfer-HasClient,
    sleep_before_retry-HasClient,
  )

  visit-HasClient :
      (file : String) (rest : List String) (t : Tally) (w : Worker (Adapted W))
      → HasClient w
      → HasClient (visit (around process) up ep opts file rest t w).0
  unfolding visit skip_remaining skip_given_up upload_file abandon
  visit-HasClient file rest t w c =
      let w1 = (poll_context (around process) up ep opts w).0 in
      ground (
        arith,
        poll_context-HasClient w c,
        upload_attempts-keeps (around process) up ep opts (λ (v : Worker (Adapted W)). HasClient v)
            attempt_once-HasClient (pos_part ep.attempts) 1 file w1,
      )

  -- A run on the adapter never calls a method on a nil client: whatever the dial function, the
  -- clients, the local files and the process do, it ends with nothing having panicked.
  pub run-panicked :
      (batch : List String) (world : W)
      → let start : Adapted W = record { world = world; client = none; panicked = false } in
        (run (around process) up ep opts batch (new_worker start)).world.panicked ≡ false
  unfolding run new_worker
  run-panicked batch world =
      let w = new_worker (record { world = world; client = none; panicked = false }) in
      let t0 : Tally = record { succeeded = 0; failed = 0 } in
      let (w1, start) = read_clock (around process) up ep opts w in
      let c1 = (read_clock-HasClient w (ground arith)).0 in
      let (w2, t) = visit_all (around process) up ep opts batch t0 w1 in
      let c2 =
        visit_all-keeps (around process) up ep opts (λ (v : Worker (Adapted W)). HasClient v)
          visit-HasClient batch t0 w1 c1 in
      let (w3, end) = read_clock (around process) up ep opts w2 in
      let c3 = (read_clock-HasClient w2 c2).0 in
      (disconnect-HasClient (emit (endpoint_done ep.name t.succeeded t.failed (sub_ℕ end start)) w3)
        (record { sound = c3.sound; client = c3.client })).sound
