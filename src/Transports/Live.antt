-- ===== src/Transports/Live.antt =====
-- dispatch.go over transports.go: the sessions that a worker opens.
use uploadfun.Base.{ℤ, ℕ, ◌≡◌, inl, inr, String, true, false, some, Result, Result-cases, ok, arith}
use uploadfun.Base.Text.{base}
use uploadfun.Upload.{Endpoint, Options}
use uploadfun.Dispatch.Effects.{Process, Worker}
use uploadfun.Dispatch.Worker.{
  connect_ok, connect_failed, retry, poll_context, dial, connect, disconnect, sleep_retry_delay,
  sleep_before_retry, try_transfer,
}
use uploadfun.Transports.Adapter.{
  RemoteClient, LocalFiles, Adapted, Dial, connect_with, transport_uploader, around,
}
use uploadfun.Transports.Session.{SftpConn, sftp_client}
use uploadfun.Transports.Stored.{IsStored}

module _ {W : Type 0} (stat_local : String → W → Result ℕ × W)
    (IsServer : SftpConn W → Type 0) where
  -- Every dial that succeeds leads to an SFTP session with such a server.
  abbrev pub IsSftp : Dial W → Type 0
  IsSftp dial =
      (timeout : ℤ) (ep : Endpoint) (world : W) (client : RemoteClient W)
      → (dial timeout ep world).0 ≡ ok client
      → (conn : SftpConn W) × IsServer conn × (client ≡ sftp_client stat_local conn)

  -- The client is such a session.
  abbrev pub IsLive : Adapted W → Type 0
  IsLive u = (conn : SftpConn W) × IsServer conn × (u.client ≡ some (sftp_client stat_local conn))

  -- A worker that is connected has such a client.
  abbrev pub IsReady : Worker (Adapted W) → Type 0
  IsReady w = w.connected ≡ true → IsLive w.world

module _ {W : Type 0} (process : Process W) (files : LocalFiles W)
    (stat_local : String → W → Result ℕ × W) (IsServer : SftpConn W → Type 0) where
  -- The last that was done to the world is what stores the file over a session with such a server,
  -- and a look at the clock.
  abbrev pub EndsStored : String → Worker (Adapted W) → Type 0
  EndsStored file w =
      (conn : SftpConn W) × IsServer conn
      × ((last : W) × IsStored files stat_local conn file (base file) last
          × (w.world.world ≡ (process.now last).1))

module _ {W : Type 0} (process : Process W) (files : LocalFiles W) (dial_client : Dial W)
    (stat_local : String → W → Result ℕ × W) (IsServer : SftpConn W → Type 0) (ep : Endpoint)
    (opts : Options) where
  pub try_transfer-retry :
      (file : String) (attempt : ℕ) (w : Worker (Adapted W))
      → let (w', v) =
          try_transfer
            (around process)
            (transport_uploader files dial_client)
            ep
            opts
            file
            attempt
            w in
        v ≡ retry → w'.connected ≡ false
  unfolding try_transfer sleep_before_retry sleep_retry_delay disconnect
  try_transfer-retry file attempt w h = ground (arith, h)

  pub connect-ok :
      (file : String) (attempt : ℕ) (w : Worker (Adapted W))
      → IsSftp stat_local IsServer dial_client
      → let (w', r) =
          connect (around process) (transport_uploader files dial_client) ep opts file attempt w in
        r ≡ connect_ok → IsLive stat_local IsServer w'.world
  unfolding connect dial transport_uploader connect_with poll_context
  connect-ok file attempt w sftp h =
      elim (Result-cases (dial_client ep.connect_timeout ep w.world.world).0) [
        | inl (e, failed) ↦ absurd (ground (arith, h, failed))
        | inr (client, dialled) ↦
            let (conn, server, is) = sftp ep.connect_timeout ep w.world.world client dialled in
            (conn, server, ground (arith, dialled, is))
      ]

  pub connect-failed :
      (file : String) (attempt : ℕ) (w : Worker (Adapted W))
      → let (w', r) =
          connect (around process) (transport_uploader files dial_client) ep opts file attempt w in
        r ≡ connect_failed → w'.connected ≡ w.connected
  unfolding connect dial poll_context
  connect-failed file attempt w h = ground (arith, h)
