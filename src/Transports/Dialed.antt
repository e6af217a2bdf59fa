-- ===== src/Transports/Dialed.antt =====
-- internal/transport/ftp.go: what a dial of FTP or FTPS leaves behind, and its connections for data.
use uploadfun.Base.{
  ℕ, ◌≡◌, ◌⊎◌, inl, inr, refl, subst, String, Bool-cases, true, false, List, ◌∷◌, Option, none,
  some, arith, Result, ok, fail,
}
use uploadfun.Transports.Guard.{mark_established}
use uploadfun.Transports.Tls.{
  TlsConfig, IsCompleted, resolve_tls_config, resolve_tls_config-IsCompleted,
}
use uploadfun.Transports.Sockets.{
  background, Deed, opened, NetConn, socket, guarded_conn, tls_client, wrap_conn, DialContext, note,
  arm_conn, is_armed,
}
use uploadfun.Transports.Ftp.{
  DialConfig, session_tls, Dialing, DialFunc, FtpLibrary, finish_dial, wrap_dialled, hand_over,
  ftp_dialer_dial, ftp_login, ftp_dial_and_login, session_up, dial_ftp_session,
}

-- `ftp.Dial` changes the state of the program only by calls of the dial function that it is given; the
-- rest of what it does is in the world.
pub record OnlyDials {S W : Type 0} (library : FtpLibrary S W) : Type 1 where
  pub keeps :
      (P : Dialing W → Type 0) (dial_func : DialFunc W)
      → ((address : String) (d : Dialing W) → P d → P (dial_func address d).1)
      → ((world : W) (d : Dialing W) → P d → P (record d { net = record d.net { world = world } }))
      → (address : String) (option : Option TlsConfig) (d : Dialing W) → P d
      → P (library.dial address option dial_func d).1

module _ {S W : Type 0} (dial_context : DialContext W) (library : FtpLibrary S W)
    (only_dials : OnlyDials library) (cfg : DialConfig) where
  -- What holds while a session is being opened: only the control connection has a deadline.
  record IsConnecting (conn : ℕ) (d : Dialing W) : Type 0 where
    armed : is_armed conn d.net.deeds ≡ true → d.dialer.ctrl_conn ≡ some conn
    waiting : d.dialer.guard.established ≡ false
    stall : d.dialer.guard.stall_timeout ≡ cfg.stall_timeout
    tls : d.dialer.tls_config ≡ session_tls cfg

  ftp_dialer_dial-IsConnecting :
      (conn : ℕ) (address : String) (d : Dialing W)
      → IsConnecting conn d
      → IsConnecting conn (ftp_dialer_dial dial_context address d).1
  unfolding ftp_dialer_dial wrap_dialled hand_over arm_conn
  ftp_dialer_dial-IsConnecting conn address d c = ground arith

  ftp_dial_and_login-IsConnecting :
      (conn : ℕ) (address : String) (d : Dialing W)
      → IsConnecting conn d
      → IsConnecting conn (ftp_dial_and_login dial_context library address cfg d).1
  unfolding ftp_dial_and_login ftp_login
  ftp_dial_and_login-IsConnecting conn address d c =
      let option : Option TlsConfig = elim cfg.explicit_tls [
        | true ↦ d.dialer.tls_config
        | false ↦ none
      ] in
      ground (
        arith,
        only_dials.keeps (IsConnecting conn) (ftp_dialer_dial dial_context)
            (ftp_dialer_dial-IsConnecting conn)
            (λ world d1 c1. record {
              armed = c1.armed;
              waiting = c1.waiting;
              stall = c1.stall;
              tls = c1.tls;
            })
            address option d c,
      )

  -- What holds of a connection once a session is up, or if it could not be opened.
  abbrev pub IsReady : ℕ → Result S × Dialing W → Type 0
  IsReady conn (ok s, d) =
      (is_armed conn d.net.deeds ≡ false)
      × (d.dialer.guard.established ≡ true)
      × (d.dialer.guard.stall_timeout ≡ cfg.stall_timeout)
      × (d.dialer.context ≡ background)
      × (d.dialer.tls_config ≡ session_tls cfg)
  IsReady conn (fail e, d) = d.dialer.guard.established ≡ false

  finish_dial-IsReady :
      (conn : ℕ) (x : Result S × Dialing W)
      → IsConnecting conn x.1
      → IsReady conn (finish_dial dial_context library x)
  unfolding finish_dial session_up mark_established
  finish_dial-IsReady conn (fail e, d) c = c.waiting
  finish_dial-IsReady conn (ok s, d) c = ground arith

  -- A dial of FTP or FTPS that succeeds leaves no connection with a connect deadline, watches the
  -- connections for the endpoint's stall timeout, lets go of the context of the connect and keeps
  -- the resolved TLS configuration; one that fails has not started to watch. The condition is that
  -- `ftp.Dial` acts on the program only through the dial function.
  pub dial_ftp_session-IsReady :
      (conn : ℕ) (world : W) → IsReady conn (dial_ftp_session dial_context library cfg world)
  unfolding dial_ftp_session
  dial_ftp_session-IsReady conn world = finish_dial-IsReady conn _ (
      ftp_dial_and_login-IsConnecting conn _ _
        (record { armed = λ h. absurd (cc); waiting = refl; stall = refl; tls = refl }))

  -- The connection for data of a session of FTP, or of FTPS, over this socket.
  abbrev pub IsWrapped : (n : ℕ) → NetConn → Type 0
  IsWrapped n conn =
      ((cfg.explicit_tls ≡ false) × (conn ≡ guarded_conn (socket n)))
      ⊎ ((cfg.explicit_tls ≡ true)
          × ((c : TlsConfig) × (conn ≡ tls_client (guarded_conn (socket n)) c)
              × IsCompleted cfg.host cfg.tls_config c))

  -- What a dial for a data connection returns and does.
  abbrev pub IsDataConn : List Deed → Result NetConn × Dialing W → Type 0
  IsDataConn deeds (ok conn, d) =
      (n : ℕ) × IsWrapped n conn × (d.net.deeds ≡ opened background n ∷ deeds)
  IsDataConn deeds (fail e, d) = d.net.deeds ≡ deeds

  hand_over-IsWrapped :
      (n ctrl : ℕ) (d : Dialing W)
      → d.dialer.ctrl_conn ≡ some ctrl
      → d.dialer.tls_config ≡ session_tls cfg
      → (conn : NetConn) × (hand_over dial_context n d ≡ (ok conn, d)) × IsWrapped n conn
  unfolding hand_over wrap_conn
  hand_over-IsWrapped n ctrl d known tls =
      let completed = resolve_tls_config-IsCompleted cfg.host cfg.tls_config in
      elim (Bool-cases cfg.explicit_tls) [
        | inl yes_tls ↦ (
          tls_client (guarded_conn (socket n)) (resolve_tls_config cfg.host cfg.tls_config),
          ground (arith, known, tls, yes_tls),
          inr (yes_tls, (resolve_tls_config cfg.host cfg.tls_config, refl, completed)),
        )
        | inr no_tls ↦
            (guarded_conn (socket n), ground (arith, known, tls, no_tls), inl (no_tls, refl))
      ]

  wrap_dialled-IsDataConn :
      (ctrl : ℕ) (result : Result ℕ) (d : Dialing W)
      → d.dialer.ctrl_conn ≡ some ctrl
      → d.dialer.tls_config ≡ session_tls cfg
      → d.dialer.context ≡ background
      → IsDataConn d.net.deeds (wrap_dialled dial_context result d)
  unfolding wrap_dialled
  wrap_dialled-IsDataConn ctrl (fail e) d known tls after = refl
  wrap_dialled-IsDataConn ctrl (ok n) d known tls after =
      let d1 = record d { net = note (opened d.dialer.context n) d.net } in
      let (conn, same, wrapped) = hand_over-IsWrapped n ctrl d1 known tls in
      rw same (n, wrapped, rw after refl)

  -- After a dial that succeeded, a data connection is dialled without the context of the connect, gets
  -- no connect deadline, and is guarded: as it is in a session of FTP, and below TLS in one of FTPS, with
  -- the configuration that was asked for, completed by the host's name, a session cache and TLS 1.2
  -- where these are not set. The conditions are that the session has a control connection, and
  -- that `ftp.Dial` acts on the program only through the dial function.
  pub dial_ftp_session-IsDataConn :
      (ctrl : ℕ) (address : String) (s : S) (d : Dialing W) (world : W)
      → dial_ftp_session dial_context library cfg world ≡ (ok s, d)
      → d.dialer.ctrl_conn ≡ some ctrl
      → IsDataConn d.net.deeds (ftp_dialer_dial dial_context address d)
  unfolding ftp_dialer_dial
  dial_ftp_session-IsDataConn ctrl address s d world dialled known =
      let ready : IsReady ctrl (ok s, d) =
        subst (IsReady ctrl) dialled (dial_ftp_session-IsReady ctrl world) in
      let (result, after) = dial_context d.dialer.context d.dialer.timeout address d.net.world in
      let d1 = record d { net = record d.net { world = after } } in
      wrap_dialled-IsDataConn ctrl result d1 known ready.4 ready.3
