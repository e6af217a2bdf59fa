-- ===== src/Transports/Unreadable.antt =====
-- transports.go and dispatch.go: a local file that may not be opened, and the error that the engine
-- takes for a refusal by the server.
use uploadfun.Base.{
  ℕ, ◌≡◌, ℤ, String, ◌==◌, true, false, List, ◌∷◌, none, some, arith, Err, wrap, message,
  is_permission, ok,
}
use uploadfun.Upload.{
  Endpoint, Options, UploadEvent, overwrite_delete_first, file_start, file_error,
}
use uploadfun.Dispatch.Effects.{Process, Worker, emit, sent_before}
use uploadfun.Dispatch.Worker.{
  settled, emit_progress, read_clock, delete_existing, send, transfer, try_transfer, disconnect,
  poll_context, dial, connect, reconnect, attempt_once,
}
use uploadfun.Transports.Adapter.{
  RemoteClient, LocalFiles, Adapted, Dial, connect_with, upload_local, transport_uploader, around,
}

-- The file cannot be opened in any world, for lack of permission.
abbrev pub IsUnreadable : {W : Type 0} → LocalFiles W → String → Err → Type 0
IsUnreadable {W} files file e =
    (is_permission e ≡ true) × ((world : W) → (files.open_file file world).0 ≡ some e)

module _ {W : Type 0} (process : Process W) (files : LocalFiles W) (dial_client : Dial W)
    (ep : Endpoint) (opts : Options) where
  -- An attempt on a local file that may not be opened sets the permanent error, if the mode is not
  -- delete-first.
  pub try_transfer-unreadable :
      (file : String) (attempt : ℕ) (w : Worker (Adapted W)) (e : Err)
      → (ep.overwrite == overwrite_delete_first) ≡ false
      → IsUnreadable files file e
      → let (w', v) =
          try_transfer
            (around process)
            (transport_uploader files dial_client)
            ep
            opts
            file
            attempt
            w in
        (w'.permanent_err ≡ some (wrap "upload: " e)) × (v ≡ settled false)
  unfolding try_transfer transfer delete_existing send transport_uploader upload_local emit_progress
      read_clock is_permission
  try_transfer-unreadable file attempt w e direct (denied, closed) =
      let w1 =
        (read_clock (around process) (transport_uploader files dial_client) ep opts
          (emit (file_start ep.name file attempt) w)).0 in
      ground (arith, closed w1.world.world)

  abbrev pub start_and_error : String → ℕ → Err → List UploadEvent → List UploadEvent
  start_and_error file attempt e later =
      file_start ep.name file attempt
      ∷ file_error ep.name file attempt (message (wrap "upload: " e)) (wrap "upload: " e)
      ∷ later

  pub try_transfer-events :
      (file : String) (attempt : ℕ) (w : Worker (Adapted W)) (e : Err) (later : List UploadEvent)
      → (ep.overwrite == overwrite_delete_first) ≡ false
      → IsUnreadable files file e
      → let (w', v) =
          try_transfer
            (around process)
            (transport_uploader files dial_client)
            ep
            opts
            file
            attempt
            w in
        (w'.connected ≡ false)
        × (sent_before w'.log later ≡ sent_before w.log (start_and_error file attempt e later))
  unfolding try_transfer transfer delete_existing send transport_uploader upload_local emit_progress
      read_clock is_permission disconnect
  try_transfer-events file attempt w e later direct (denied, closed) =
      let w1 =
        (read_clock (around process) (transport_uploader files dial_client) ep opts
          (emit (file_start ep.name file attempt) w)).0 in
      ground (arith, closed w1.world.world)

  -- The worker after the connect of a first attempt.
  abbrev pub linked : String → ℕ → Worker (Adapted W) → Worker (Adapted W)
  linked file attempt w =
      let up = transport_uploader files dial_client in
      (connect (around process) up ep opts file attempt
        (poll_context (around process) up ep opts w).0).0

  module _ (context : (world : W) → (process.ctx_err world).0 ≡ none)
      (reachable : (timeout : ℤ) (ep : Endpoint) (world : W)
        → (client : RemoteClient W) × ((dial_client timeout ep world).0 ≡ ok client)) where
    pub attempt_once-linked :
        (file : String) (attempt : ℕ) (w : Worker (Adapted W)) (later : List UploadEvent)
        → w.connected ≡ false
        → let up = transport_uploader files dial_client in
          (attempt_once (around process) up ep opts file attempt w
            ≡ try_transfer (around process) up ep opts file attempt (linked file attempt w))
          × (sent_before (linked file attempt w).log later ≡ sent_before w.log later)
    unfolding attempt_once poll_context reconnect connect dial transport_uploader connect_with
        around
    attempt_once-linked file attempt w later off =
        let world1 = (process.ctx_err w.world.world).1 in
        let (client, dialled) = reachable ep.connect_timeout ep world1 in
        ground (arith, off, context w.world.world, dialled)
