-- ===== src/Transports/Assured.antt =====
-- dispatch.go over transports.go and internal/transport: `uploadFile` over SFTP sessions.
use uploadfun.Base.{
  ℕ, zero, suc, ◌+◌, ◌≡◌, ◌⊎◌, inl, inr, refl, ap, ◌∙◌, String, Bool, true, false, Result, pos_part,
}
use uploadfun.Upload.{Endpoint, Options}
use uploadfun.Dispatch.Effects.{Process, Worker}
use uploadfun.Dispatch.Worker.{Verdict, settled, retry, attempt_once, upload_attempts, upload_file}
use uploadfun.Transports.Adapter.{LocalFiles, Adapted, Dial, transport_uploader, around}
use uploadfun.Transports.Session.{SftpConn}
use uploadfun.Transports.Live.{IsSftp, IsReady, EndsStored}
use uploadfun.Transports.Attempts.{attempt_once-IsSound}

Verdict-cases : (v : Verdict) → ((b : Bool) × (v ≡ settled b)) ⊎ (v ≡ retry)
Verdict-cases (settled b) = inl (b, refl)
Verdict-cases retry = inr refl

module _ {W : Type 0} (process : Process W) (files : LocalFiles W) (dial_client : Dial W)
    (stat_local : String → W → Result ℕ × W) (IsServer : SftpConn W → Type 0) (ep : Endpoint)
    (opts : Options) (sftp : IsSftp stat_local IsServer dial_client)
    (verified : opts.no_verify ≡ false) where
  upload_attempts-settled :
      (rounds attempt : ℕ) (file : String) (w : Worker (Adapted W)) (b : Bool)
      → let up = transport_uploader files dial_client in
        let (w1, v) = attempt_once (around process) up ep opts file attempt w in
        v ≡ settled b
        → upload_attempts (around process) up ep opts (suc rounds) attempt file w ≡ (w1, b)
  unfolding upload_attempts
  upload_attempts-settled rounds attempt file w b is = rw (upload_attempts, is) refl

  upload_attempts-retry :
      (rounds attempt : ℕ) (file : String) (w : Worker (Adapted W))
      → let up = transport_uploader files dial_client in
        let (w1, v) = attempt_once (around process) up ep opts file attempt w in
        v ≡ retry
        → upload_attempts (around process) up ep opts (suc rounds) attempt file w
          ≡ upload_attempts (around process) up ep opts rounds (attempt + 1) file w1
  unfolding upload_attempts
  upload_attempts-retry rounds attempt file w is = rw (upload_attempts, is) refl

  upload_attempts-EndsStored :
      (rounds attempt : ℕ) (file : String) (w : Worker (Adapted W))
      → IsReady stat_local IsServer w
      → let (w', done) =
          upload_attempts
            (around process)
            (transport_uploader files dial_client)
            ep
            opts
            rounds
            attempt
            file
            w in
        done ≡ true → EndsStored process files stat_local IsServer file w'
  unfolding upload_attempts
  upload_attempts-EndsStored zero attempt file w ready = λ h. absurd cc
  upload_attempts-EndsStored (suc rounds) attempt file w ready =
      let up = transport_uploader files dial_client in
      let (w1, v) = attempt_once (around process) up ep opts file attempt w in
      let (stored, again) =
        attempt_once-IsSound process files dial_client stat_local IsServer ep opts sftp verified
          file attempt w ready in
      elim (Verdict-cases v) [
        | inl (b, is) ↦
            rw (upload_attempts-settled rounds attempt file w b is)
              (λ h. stored (is ∙ ap (λ x. settled x) h))
        | inr is ↦
            rw (upload_attempts-retry rounds attempt file w is)
              (upload_attempts-EndsStored rounds (attempt + 1) file w1 (again is))
      ]

  -- Where every dial that succeeds leads to an SFTP session with one of some servers, verification is
  -- on, and a worker that is connected has such a session: if `uploadFile` succeeds, over however many
  -- attempts and sessions, then in a session with one of these servers the remote file was created,
  -- the local file was copied into it, and it was closed, each without an error; and after that the
  -- two files were asked for their sizes, in that session, and had the same. Nothing but a look at the
  -- clock follows.
  pub upload_file-EndsStored :
      (file : String) (w : Worker (Adapted W))
      → IsReady stat_local IsServer w
      → let (w', done) =
          upload_file (around process) (transport_uploader files dial_client) ep opts file w in
        done ≡ true → EndsStored process files stat_local IsServer file w'
  unfolding upload_file
  upload_file-EndsStored file w ready =
      upload_attempts-EndsStored (pos_part ep.attempts) 1 file w ready
