-- ===== src/Transports/Ftp.antt =====
-- internal/transport/ftp.go and ftps.go: how an FTP or FTPS session is opened. `ftp.Dial` is a parameter
-- that is given the dial function and may call it at will, now and for each data connection.
use uploadfun.Base.{
  ℕ, ℤ, pos, String, ◌<>◌, Bool, true, false, [], Option, none, some, Err, wrap, Result, ok, fail,
}
use uploadfun.Upload.{Endpoint}
use uploadfun.Transports.Conn.{resolve_port}
use uploadfun.Transports.Guard.{StallGuard, mark_established}
use uploadfun.Transports.Tls.{TlsConfig, empty_tls_config, resolve_tls_config}
use uploadfun.Transports.Sockets.{
  Context, connecting, background, opened, cleared, Net, DialContext, note, arm_conn,
  join_host_port, NetConn, socket, tls_client, wrap_conn,
}

abbrev pub default_ftp_port : ℤ
default_ftp_port = pos 21

pub record DialConfig : Type 0 where
  pub host : String
  pub port : ℤ
  pub username : String
  pub password : String
  pub connect_timeout : ℤ
  pub stall_timeout : ℤ
  pub explicit_tls : Bool
  pub tls_config : Option TlsConfig

pub record FtpDialOptions : Type 0 where
  pub host : String
  pub port : ℤ
  pub username : String
  pub password : String
  pub connect_timeout : ℤ
  pub stall_timeout : ℤ

pub record FtpsDialOptions : Type 0 where
  pub host : String
  pub port : ℤ
  pub username : String
  pub password : String
  pub connect_timeout : ℤ
  pub stall_timeout : ℤ
  pub tls_config : Option TlsConfig

-- What `DialFTP` passes to `dial`, and what `DialFTPS` does.
unfoldable pub ftp_config : FtpDialOptions → DialConfig
ftp_config opts = record {
  host = opts.host;
  port = opts.port;
  username = opts.username;
  password = opts.password;
  connect_timeout = opts.connect_timeout;
  stall_timeout = opts.stall_timeout;
  explicit_tls = false;
  tls_config = none;
}

unfoldable pub ftps_config : FtpsDialOptions → DialConfig
ftps_config opts = record {
  host = opts.host;
  port = opts.port;
  username = opts.username;
  password = opts.password;
  connect_timeout = opts.connect_timeout;
  stall_timeout = opts.stall_timeout;
  explicit_tls = true;
  tls_config = opts.tls_config;
}

-- The TLS configuration of a session, if it is one of FTPS.
abbrev pub session_tls : DialConfig → Option TlsConfig
session_tls cfg = elim cfg.explicit_tls [
  | true ↦ some (resolve_tls_config cfg.host cfg.tls_config)
  | false ↦ none
]

-- `ftpDialer`, with the guard that it points to.
pub record FtpDialer : Type 0 where
  pub context : Context
  pub timeout : ℤ
  pub guard : StallGuard
  pub tls_config : Option TlsConfig
  pub ctrl_conn : Option ℕ

pub record Dialing (W : Type 0) : Type 0 where
  pub dialer : FtpDialer
  pub net : Net W

abbrev pub DialFunc : Type 0 → Type 0
DialFunc W = String → Dialing W → Result NetConn × Dialing W

-- `ftp.Dial` with the option of the dial function and, for FTPS, that of explicit TLS; `Login` and
-- `Quit`. `S` is `*ftp.ServerConn`.
pub record FtpLibrary (S W : Type 0) : Type 0 where
  pub dial : String → Option TlsConfig → DialFunc W → Dialing W → Result S × Dialing W
  pub login : S → (username password : String) → W → Option Err × W
  pub quit : S → W → Option Err × W

module _ {W : Type 0} (dial_context : DialContext W) where
  -- What `ftpDialer.dial` does with a new connection: the first is the control connection, any other
  -- a data connection.
  unfoldable pub hand_over : ℕ → Dialing W → Result NetConn × Dialing W
  hand_over conn d = elim d.dialer.ctrl_conn [
    | none ↦ (
      ok (wrap_conn (socket conn)),
      record {
        dialer = record d.dialer { ctrl_conn = some conn };
        net = arm_conn conn d.dialer.timeout d.net;
      },
    )
    | some ctrl ↦ elim d.dialer.tls_config [
      | none ↦ (ok (wrap_conn (socket conn)), d)
      | some config ↦ (ok (tls_client (wrap_conn (socket conn)) config), d)
    ]
  ]

  unfoldable pub wrap_dialled : Result ℕ → Dialing W → Result NetConn × Dialing W
  wrap_dialled (fail e) d = (fail e, d)
  wrap_dialled (ok conn) d =
      hand_over conn (record d { net = note (opened d.dialer.context conn) d.net })

  -- `ftpDialer.dial`
  unfoldable pub ftp_dialer_dial : DialFunc W
  ftp_dialer_dial address d =
      let (result, world) = dial_context d.dialer.context d.dialer.timeout address d.net.world in
      wrap_dialled result (record d { net = record d.net { world = world } })

  module _ {S : Type 0} (library : FtpLibrary S W) where
    unfoldable pub ftp_login : S → DialConfig → Dialing W → Result S × Dialing W
    ftp_login conn cfg d =
        let (err, world) = library.login conn cfg.username cfg.password d.net.world in
        elim err [
          | none ↦ (ok conn, record d { net = record d.net { world = world } })
          | some e ↦
              let (_, world1) = library.quit conn world in
              (fail (wrap "login: " e), record d { net = record d.net { world = world1 } })
        ]

    unfoldable pub ftp_dial_and_login : String → DialConfig → Dialing W → Result S × Dialing W
    ftp_dial_and_login address cfg d =
        let option : Option TlsConfig = elim cfg.explicit_tls [
          | true ↦ d.dialer.tls_config
          | false ↦ none
        ] in
        let (result, d1) = library.dial address option ftp_dialer_dial d in
        elim result [
          | fail e ↦ (fail (wrap ("dial " <> address <> ": ") e), d1)
          | ok conn ↦ ftp_login conn cfg d1
        ]

    -- The end of `dial`, when the session is up.
    unfoldable pub session_up : Dialing W → Dialing W
    session_up d = record {
      dialer = record d.dialer { context = background; guard = mark_established d.dialer.guard };
      net = elim d.dialer.ctrl_conn [ none ↦ d.net | some conn ↦ note (cleared conn) d.net ];
    }

    unfoldable pub finish_dial : Result S × Dialing W → Result S × Dialing W
    finish_dial (fail e, d) = (fail e, d)
    finish_dial (ok conn, d) = (ok conn, session_up d)

    -- `dial`
    unfoldable pub dial_ftp_session : DialConfig → W → Result S × Dialing W
    dial_ftp_session cfg world =
        let address = join_host_port cfg.host (resolve_port cfg.port default_ftp_port) in
        let dialer : FtpDialer = record {
          context = connecting;
          timeout = cfg.connect_timeout;
          guard = record { stall_timeout = cfg.stall_timeout; established = false };
          tls_config = session_tls cfg;
          ctrl_conn = none;
        } in
        let net : Net W = record { world = world; deeds = [] } in
        finish_dial (ftp_dial_and_login address cfg (record { dialer = dialer; net = net }))

module _ {W S : Type 0} (dial_context : DialContext W) (library : FtpLibrary S W) where
  -- `DialFTP`
  unfoldable pub dial_ftp : FtpDialOptions → W → Result S × Dialing W
  dial_ftp opts = dial_ftp_session dial_context library (ftp_config opts)

  -- `DialFTPS`
  unfoldable pub dial_ftps : FtpsDialOptions → W → Result S × Dialing W
  dial_ftps opts = dial_ftp_session dial_context library (ftps_config opts)

-- transports.go: `dialFTPClient`
unfoldable pub ftp_options : Endpoint → FtpDialOptions
ftp_options ep = record {
  host = ep.host;
  port = ep.port;
  username = ep.username;
  password = ep.password;
  connect_timeout = ep.connect_timeout;
  stall_timeout = ep.stall_timeout;
}

-- transports.go: `dialFTPSClient`
unfoldable pub ftps_options : Endpoint → FtpsDialOptions
ftps_options ep = record {
  host = ep.host;
  port = ep.port;
  username = ep.username;
  password = ep.password;
  connect_timeout = ep.connect_timeout;
  stall_timeout = ep.stall_timeout;
  tls_config = elim ep.insecure_skip_verify [
    | true ↦ some (record empty_tls_config { insecure_skip_verify = true })
    | false ↦ none
  ];
}
