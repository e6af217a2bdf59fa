-- ===== src/Transports/Refused.antt =====
-- transports.go and dispatch.go: a file that may not be opened, and `uploadFile`.
use uploadfun.Base.{
  ℕ, suc, ◌≡◌, refl, ap, ◌∙◌, ℤ, pos_part, String, ◌==◌, false, List, [], ◌∷◌, none, some, Err,
  wrap, message, ok,
}
use uploadfun.Upload.{
  Endpoint, Options, UploadEvent, overwrite_delete_first, file_start, file_error,
}
use uploadfun.Dispatch.Effects.{Process, Worker, sent_before}
use uploadfun.Dispatch.Worker.{settled, attempt_once, upload_attempts, upload_file}
use uploadfun.Transports.Adapter.{
  RemoteClient, LocalFiles, Adapted, Dial, transport_uploader, around,
}
use uploadfun.Transports.Unreadable.{
  IsUnreadable, start_and_error, linked, try_transfer-unreadable, try_transfer-events,
  attempt_once-linked,
}

module _ {W : Type 0} (process : Process W) (files : LocalFiles W) (dial_client : Dial W)
    (ep : Endpoint) (opts : Options) (context : (world : W) → (process.ctx_err world).0 ≡ none)
    (reachable : (timeout : ℤ) (ep : Endpoint) (world : W)
      → (client : RemoteClient W) × ((dial_client timeout ep world).0 ≡ ok client))
    (direct : (ep.overwrite == overwrite_delete_first) ≡ false) where
  -- The worker was refused the file at its first attempt.
  pub record IsRefused (file : String) (e : Err) (w w' : Worker (Adapted W)) : Type 0 where
    pub permanent : w'.permanent_err ≡ some (wrap "upload: " e)
    pub unconnected : w'.connected ≡ false
    pub events :
        (later : List UploadEvent)
        → sent_before w'.log later
          ≡ sent_before w.log (
              file_start ep.name file 1
              ∷ file_error ep.name file 1 (message (wrap "upload: " e)) (wrap "upload: " e)
              ∷ later)

  attempt_once-IsRefused :
      (file : String) (w : Worker (Adapted W)) (e : Err)
      → IsUnreadable files file e
      → w.connected ≡ false
      → let (w', v) =
          attempt_once (around process) (transport_uploader files dial_client) ep opts file 1 w in
        (v ≡ settled false) × IsRefused file e w w'
  attempt_once-IsRefused file w e closed off =
      let w1 = linked process files dial_client ep opts file 1 w in
      let same =
        (attempt_once-linked process files dial_client ep opts context reachable file 1 w []
          off).0 in
      let (permanent, verdict) =
        try_transfer-unreadable process files dial_client ep opts file 1 w1 e direct closed in
      let ended =
        try_transfer-events process files dial_client ep opts file 1 w1 e [] direct closed in
      (
        ap (λ x. x.1) same ∙ verdict,
        record {
          permanent = ap (λ x. x.0.permanent_err) same ∙ permanent;
          unconnected = ap (λ x. x.0.connected) same ∙ ended.0;
          events = λ later.
              ap (λ x. sent_before x.0.log later) same
              ∙ ((try_transfer-events process files dial_client ep opts file 1 w1 e later direct
                    closed).1
                  ∙ (attempt_once-linked process files dial_client ep opts context reachable file 1
                      w (start_and_error process files dial_client ep opts file 1 e later) off).1);
        },
      )

  pub upload_file-IsRefused :
      (file : String) (w : Worker (Adapted W)) (e : Err) (rounds : ℕ)
      → IsUnreadable files file e
      → w.connected ≡ false
      → pos_part ep.attempts ≡ suc rounds
      → let (w', done) =
          upload_file (around process) (transport_uploader files dial_client) ep opts file w in
        (done ≡ false) × IsRefused file e w w'
  unfolding upload_file upload_attempts
  upload_file-IsRefused file w e rounds closed off more =
      let (verdict, refused) = attempt_once-IsRefused file w e closed off in
      rw (more, upload_attempts, verdict) (refl, refused)
