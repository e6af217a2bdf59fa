-- ===== src/Transports/SftpDialed.antt =====
-- internal/transport/sftp.go: what a dial of SFTP leaves behind, where it succeeds and where it fails.
use uploadfun.Base.{
  ℕ, ◌≡◌, inl, inr, refl, subst, ℤ, pos, ltb_ℤ, String, true, false, List, [], ◌∷◌, some, arith,
  Result, Result-cases, ok, fail, if◌then◌else◌,
}
use uploadfun.Transports.Auth.{KeyReader}
use uploadfun.Transports.Conn.{resolve_port}
use uploadfun.Transports.Guard.{mark_established}
use uploadfun.Transports.Sockets.{
  connecting, Deed, armed, opened, closed, handed, socket_of, NetConn, socket, guarded_conn,
  wrap_conn, Net, DialContext, arm_conn, is_armed, open_conns, handed_conns, join_host_port,
}
use uploadfun.Transports.Sftp.{
  SftpDialOptions, KnownHosts, SshLibrary, SftpClient, SftpDialing, SshConfig, ssh_client_config,
  default_sftp_port, open_sftp, sftp_up, dial_with_config, dial_sftp,
}

-- One open connection, without a connect deadline, over which the SSH session runs as a `guardedConn`
-- of a guard that is established, with this stall timeout; or an error, and nothing left open.
abbrev pub IsClean : {H C W : Type 0} → ℤ → Result (SftpClient H C) × SftpDialing W → Type 0
IsClean stall (ok s, d) =
    (conn : ℕ) × (open_conns d.net.deeds ≡ conn ∷ [])
    × (handed_conns d.net.deeds ≡ guarded_conn (socket conn) ∷ [])
    × (is_armed conn d.net.deeds ≡ false)
    × (d.guard ≡ some (record { stall_timeout = stall; established = true }))
IsClean stall (fail e, d) = open_conns d.net.deeds ≡ []

-- What `openSFTP` does to the connections: a handshake, and a close if it fails.
abbrev Opens : {A W : Type 0} → NetConn → List Deed → Result A × Net W → Type 0
Opens conn before (ok c, net) = net.deeds ≡ handed conn ∷ before
Opens conn before (fail e, net) = net.deeds ≡ closed (socket_of conn) ∷ handed conn ∷ before

-- The deeds of a dial before the handshake.
abbrev begun : SftpDialOptions → ℕ → List Deed
begun opts conn =
    if ltb_ℤ (pos 0) opts.connect_timeout
    then armed conn ∷ opened connecting conn ∷ []
    else opened connecting conn ∷ []

module _ {S K H C W : Type 0} (dial_context : DialContext W) (library : SshLibrary S K H C W)
    (opts : SftpDialOptions) where
  open_sftp-Opens :
      (conn : NetConn) (address : String) (cfg : SshConfig S K) (net : Net W)
      → Opens conn net.deeds (open_sftp dial_context library conn address cfg net)
  unfolding open_sftp
  open_sftp-Opens conn address cfg net = ground arith

  sftp_up-IsClean :
      (conn : ℕ) (x : Result (SftpClient H C) × Net W)
      → Opens (guarded_conn (socket conn)) (begun opts conn) x
      → IsClean opts.stall_timeout (
          sftp_up dial_context library conn
            (record { stall_timeout = opts.stall_timeout; established = false })
            x)
  unfolding sftp_up mark_established
  sftp_up-IsClean conn (fail e, net) h = ground (arith, h)
  sftp_up-IsClean conn (ok c, net) h =
      (conn, ground (arith, h), ground (arith, h), ground (arith, h), ground arith)

  arm_conn-begun :
      (conn : ℕ) (world : W)
      → (arm_conn conn opts.connect_timeout
          (record { world = world; deeds = opened connecting conn ∷ [] })).deeds
        ≡ begun opts conn
  unfolding arm_conn
  arm_conn-begun conn world = ground arith

  dial_with_config-IsClean :
      (cfg : SshConfig S K) (world : W)
      → IsClean opts.stall_timeout
          (dial_with_config dial_context library opts cfg (record { world = world; deeds = [] }))
  unfolding dial_with_config wrap_conn
  dial_with_config-IsClean cfg world =
      let address = join_host_port opts.host (resolve_port opts.port default_sftp_port) in
      let (result, world1) = dial_context connecting opts.connect_timeout address world in
      elim (Result-cases result) [
        | inl (e, failed) ↦ rw (IsClean, dial_with_config, failed) refl
        | inr (conn, dialled) ↦
            let net : Net W = record { world = world1; deeds = opened connecting conn ∷ [] } in
            let net1 = arm_conn conn opts.connect_timeout net in
            let x = open_sftp dial_context library (guarded_conn (socket conn)) address cfg net1 in
            let opens = open_sftp-Opens (guarded_conn (socket conn)) address cfg net1 in
            rw (IsClean, dial_with_config, dialled)
              (sftp_up-IsClean conn x (
                subst (λ before. Opens (guarded_conn (socket conn)) before x)
                  (arm_conn-begun conn world1) opens))
      ]

  -- A dial of SFTP ends with one open connection, over which the SSH handshake was made as a guarded
  -- connection, which has no connect deadline any more, and whose guard is established with the
  -- endpoint's stall timeout; or with an error and no open connection.
  pub dial_sftp-IsClean :
      (reader : KeyReader S) (hosts : KnownHosts K) (world : W)
      → IsClean opts.stall_timeout (dial_sftp dial_context library reader hosts opts world)
  unfolding dial_sftp
  dial_sftp-IsClean reader hosts world = elim (Result-cases (ssh_client_config reader hosts opts)) [
    | inl (e, refused) ↦ rw (IsClean, dial_sftp, refused) refl
    | inr (cfg, made) ↦ rw (IsClean, dial_sftp, made) (dial_with_config-IsClean cfg world)
  ]
