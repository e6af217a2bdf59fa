-- ===== src/Transports/Attempts.antt =====
-- dispatch.go over transports.go: the attempts on a file over sessions that the attempts open.
use uploadfun.Base.{
  ℕ, ◌≡◌, ◌≢◌, ◌⊎◌, inl, inr, refl, ◌∙◌, String, Bool, Bool-cases, true, false, Result, arith,
}
use uploadfun.Upload.{Endpoint, Options}
use uploadfun.Dispatch.Effects.{Process, Worker}
use uploadfun.Dispatch.Worker.{
  ConnectResult, connect_ok, connect_failed, connect_canceled, Verdict, settled, retry,
  poll_context, connect, sleep_retry_delay, sleep_before_retry, try_transfer, reconnect,
  attempt_once, report_giving_up,
}
use uploadfun.Transports.Adapter.{LocalFiles, Adapted, Dial, transport_uploader, around}
use uploadfun.Transports.Session.{SftpConn}
use uploadfun.Transports.Stored.{try_transfer-IsStored}
use uploadfun.Transports.Live.{
  IsSftp, IsLive, IsReady, EndsStored, try_transfer-retry, connect-ok, connect-failed,
}

ConnectResult-cases :
    (r : ConnectResult) → (r ≡ connect_ok) ⊎ ((r ≡ connect_failed) ⊎ (r ≡ connect_canceled))
ConnectResult-cases connect_ok = inl refl
ConnectResult-cases connect_failed = inr (inl refl)
ConnectResult-cases connect_canceled = inr (inr refl)

not_both : {A : Type 0} (b : Bool) → b ≡ false → b ≡ true → A
not_both b h k = absurd cc

module _ {W : Type 0} (process : Process W) (files : LocalFiles W) (dial_client : Dial W)
    (stat_local : String → W → Result ℕ × W) (IsServer : SftpConn W → Type 0) (ep : Endpoint)
    (opts : Options) where
  -- What follows from how an attempt ends.
  abbrev IsSound : String → Worker (Adapted W) → Verdict → Type 0
  IsSound file w v =
      (v ≡ settled true → EndsStored process files stat_local IsServer file w)
      × (v ≡ retry → IsReady stat_local IsServer w)

  module _ (sftp : IsSftp stat_local IsServer dial_client) (verified : opts.no_verify ≡ false) where
    try_transfer-IsSound :
        (file : String) (attempt : ℕ) (w : Worker (Adapted W))
        → IsLive stat_local IsServer w.world
        → let (w', v) =
            try_transfer
              (around process)
              (transport_uploader files dial_client)
              ep
              opts
              file
              attempt
              w in
          IsSound file w' v
    try_transfer-IsSound file attempt w (conn, server, live) = (
      λ h.
          let (last, stored, ends) =
            try_transfer-IsStored process files dial_client stat_local conn ep opts file attempt w
              live verified h in
          (conn, server, (last, stored, ends)),
      λ h up.
          not_both _
            (try_transfer-retry process files dial_client stat_local IsServer ep opts file attempt w
              h)
            up,
    )

    reconnect-cases :
        (file : String) (attempt : ℕ) (w : Worker (Adapted W))
        → let up = transport_uploader files dial_client in
          let (w1, r) = connect (around process) up ep opts file attempt w in
          let (w', v) = reconnect (around process) up ep opts file attempt w in
          ((r ≡ connect_ok) × ((w', v) ≡ try_transfer (around process) up ep opts file attempt w1))
          ⊎ ((v ≢ settled true)
              × (v ≡ retry → (r ≡ connect_failed) × (w'.connected ≡ w1.connected)))
    unfolding reconnect sleep_before_retry sleep_retry_delay report_giving_up
    reconnect-cases file attempt w =
        let r =
          (connect (around process) (transport_uploader files dial_client) ep opts file attempt
            w).1 in
        elim (ConnectResult-cases r) [
          | inl done ↦ inl (done, ground (arith, done))
          | inr (inl failed) ↦
              inr (λ h. ground (arith, failed, h), λ h. (failed, ground (arith, failed, h)))
          | inr (inr canceled) ↦
              inr (λ h. ground (arith, canceled, h), λ h. absurd (ground (arith, canceled, h)))
        ]

    reconnect-IsSound :
        (file : String) (attempt : ℕ) (w : Worker (Adapted W))
        → w.connected ≡ false
        → let (w', v) =
            reconnect
              (around process)
              (transport_uploader files dial_client)
              ep
              opts
              file
              attempt
              w in
          IsSound file w' v
    reconnect-IsSound file attempt w off = elim (reconnect-cases file attempt w) [
      | inl (done, same) ↦ rw same (
          try_transfer-IsSound file attempt _ (
            connect-ok process files dial_client stat_local IsServer ep opts file attempt w sftp
              done))
      | inr (unsettled, again) ↦ (
        λ h. absurd (unsettled h),
        λ h up.
            let (failed, kept) = again h in
            not_both _
              (kept
                ∙ (connect-failed process files dial_client stat_local IsServer ep opts file attempt
                      w failed
                    ∙ off))
              up,
      )
    ]

    attempt_once-cases :
        (file : String) (attempt : ℕ) (w : Worker (Adapted W))
        → let up = transport_uploader files dial_client in
          let w1 = (poll_context (around process) up ep opts w).0 in
          let done = attempt_once (around process) up ep opts file attempt w in
          (done ≡ (w1, settled false))
          ⊎ (((w1.connected ≡ true)
                × (done ≡ try_transfer (around process) up ep opts file attempt w1))
              ⊎ ((w1.connected ≡ false)
                  × (done ≡ reconnect (around process) up ep opts file attempt w1)))
    unfolding attempt_once
    attempt_once-cases file attempt w =
        let up = transport_uploader files dial_client in
        let (w1, canceled) = poll_context (around process) up ep opts w in
        elim (Bool-cases canceled) [
          | inl stop ↦ inl (rw stop refl)
          | inr go ↦ elim (Bool-cases w1.connected) [
            | inl on ↦ inr (inl (on, rw (go, on) refl))
            | inr off ↦ inr (inr (off, rw (go, off) refl))
          ]
        ]

    poll_context-IsReady :
        (w : Worker (Adapted W))
        → IsReady stat_local IsServer w
        → IsReady stat_local IsServer
            (poll_context (around process) (transport_uploader files dial_client) ep opts w).0
    unfolding poll_context around
    poll_context-IsReady w ready = ready

    pub attempt_once-IsSound :
        (file : String) (attempt : ℕ) (w : Worker (Adapted W))
        → IsReady stat_local IsServer w
        → let (w', v) =
            attempt_once
              (around process)
              (transport_uploader files dial_client)
              ep
              opts
              file
              attempt
              w in
          IsSound file w' v
    attempt_once-IsSound file attempt w ready =
        let w1 =
          (poll_context (around process) (transport_uploader files dial_client) ep opts w).0 in
        elim (attempt_once-cases file attempt w) [
          | inl same ↦ rw same (λ h. absurd cc, λ h. absurd cc)
          | inr (inl (on, same)) ↦
              rw same (try_transfer-IsSound file attempt w1 (poll_context-IsReady w ready on))
          | inr (inr (off, same)) ↦ rw same (reconnect-IsSound file attempt w1 off)
        ]
