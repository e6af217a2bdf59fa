-- ===== src/Transports/Sftp.antt =====
-- internal/transport/sftp.go: how an SFTP session is opened.
use uploadfun.Base.{
  ℕ, ℤ, pos, String, ◌<>◌, false, List, [], Option, none, some, Err, wrap, Result, ok, fail,
}
use uploadfun.Base.Text.{join_path}
use uploadfun.Upload.{Endpoint}
use uploadfun.Transports.Auth.{KeyReader, AuthMethod, sftp_auth_methods}
use uploadfun.Transports.Conn.{resolve_port}
use uploadfun.Transports.Guard.{StallGuard, mark_established}
use uploadfun.Transports.Sockets.{
  connecting, opened, cleared, closed, handed, NetConn, socket, wrap_conn, socket_of, Net,
  DialContext, note, arm_conn, join_host_port,
}

abbrev pub default_sftp_port : ℤ
default_sftp_port = pos 22

pub record SftpDialOptions : Type 0 where
  pub host : String
  pub port : ℤ
  pub username : String
  pub password : String
  pub private_key_path : String
  pub connect_timeout : ℤ
  pub stall_timeout : ℤ

-- `os.UserHomeDir`, `os.Stat` and `knownhosts.New`. `K` is `ssh.HostKeyCallback`.
pub record KnownHosts (K : Type 0) : Type 0 where
  pub home_dir : Result String
  pub stat_err : String → Option Err
  pub new : String → Result K

-- `ssh.ClientConfig`
pub record SshConfig (S K : Type 0) : Type 0 where
  pub user : String
  pub auth : List (AuthMethod S)
  pub host_key_callback : K
  pub timeout : ℤ

-- `ssh.NewClientConn` with `ssh.NewClient` on a connection, `sftp.NewClient`, and `Close` of the
-- connection and of the SSH client, which closes its connection. `H` is `*ssh.Client`, and `C` is
-- `*sftp.Client`.
pub record SshLibrary (S K H C W : Type 0) : Type 0 where
  pub new_client : NetConn → String → SshConfig S K → W → Result H × W
  pub new_sftp : H → W → Result C × W
  pub close_conn : NetConn → W → W
  pub close_client : H → W → W

-- `SFTPClient`
pub record SftpClient (H C : Type 0) : Type 0 where
  pub ssh_conn : H
  pub sftp : C

-- What `DialSFTP` leaves: the guard that its connection points to, where it was made, and the
-- connections.
pub record SftpDialing (W : Type 0) : Type 0 where
  pub guard : Option StallGuard
  pub net : Net W

module _ {S K : Type 0} (reader : KeyReader S) (hosts : KnownHosts K) where
  unfoldable pub known_hosts_callback : Result K
  known_hosts_callback = elim hosts.home_dir [
    | fail e ↦ fail e
    | ok home ↦
        let path = join_path (join_path home ".ssh") "known_hosts" in
        elim (hosts.stat_err path) [
          | some e ↦ fail (
              wrap
                (path
                  <> " not found or unreadable - connect once with `ssh` to add the host, then retry: ")
                e)
          | none ↦ hosts.new path
        ]
  ]

  unfoldable pub ssh_client_config : SftpDialOptions → Result (SshConfig S K)
  ssh_client_config opts = elim (sftp_auth_methods reader opts.private_key_path opts.password) [
    | fail e ↦ fail e
    | ok auth ↦ elim known_hosts_callback [
      | fail e ↦ fail (wrap "known_hosts: " e)
      | ok callback ↦ ok (record {
        user = opts.username;
        auth = auth;
        host_key_callback = callback;
        timeout = opts.connect_timeout;
      })
    ]
  ]

module _ {S K H C W : Type 0} (dial_context : DialContext W) (library : SshLibrary S K H C W) where
  -- `openSFTP`; a `Close` is entered for the connection below.
  unfoldable pub open_sftp :
      NetConn → String → SshConfig S K → Net W → Result (SftpClient H C) × Net W
  open_sftp conn address cfg net =
      let (result, world) = library.new_client conn address cfg net.world in
      let net1 = note (handed conn) (record net { world = world }) in
      elim result [
        | fail e ↦ (
          fail (wrap "ssh handshake: " e),
          note (closed (socket_of conn)) (record net1 { world = library.close_conn conn world }),
        )
        | ok client ↦
            let (sftp, world1) = library.new_sftp client world in
            elim sftp [
              | fail e ↦ (
                fail (wrap "open sftp session: " e),
                note (closed (socket_of conn))
                    (record net1 { world = library.close_client client world1 }),
              )
              | ok c ↦ (ok (record { ssh_conn = client; sftp = c }), record net1 { world = world1 })
            ]
      ]

  -- The end of `DialSFTP`, after `openSFTP`.
  unfoldable pub sftp_up :
      ℕ → StallGuard → Result (SftpClient H C) × Net W → Result (SftpClient H C) × SftpDialing W
  sftp_up conn guard (fail e, net) = (fail e, record { guard = some guard; net = net })
  sftp_up conn guard (ok c, net) =
      (ok c, record { guard = some (mark_established guard); net = note (cleared conn) net })

  -- `DialSFTP` with its configuration.
  unfoldable pub dial_with_config :
      SftpDialOptions → SshConfig S K → Net W → Result (SftpClient H C) × SftpDialing W
  dial_with_config opts cfg net =
      let address = join_host_port opts.host (resolve_port opts.port default_sftp_port) in
      let (result, world) = dial_context connecting opts.connect_timeout address net.world in
      elim result [
        | fail e ↦ (
          fail (wrap ("dial " <> address <> ": ") e),
          record { guard = none; net = record net { world = world } },
        )
        | ok conn ↦
            let net1 = note (opened connecting conn) (record net { world = world }) in
            let net2 = arm_conn conn opts.connect_timeout net1 in
            let guard : StallGuard = record {
              stall_timeout = opts.stall_timeout;
              established = false;
            } in
            sftp_up conn guard (open_sftp (wrap_conn (socket conn)) address cfg net2)
      ]

  unfoldable pub dial_sftp :
      KeyReader S → KnownHosts K → SftpDialOptions → W → Result (SftpClient H C) × SftpDialing W
  dial_sftp reader hosts opts world =
      let net : Net W = record { world = world; deeds = [] } in
      elim (ssh_client_config reader hosts opts) [
        | fail e ↦ (fail e, record { guard = none; net = net })
        | ok cfg ↦ dial_with_config opts cfg net
      ]

-- transports.go: `dialSFTPClient`
unfoldable pub sftp_options : Endpoint → SftpDialOptions
sftp_options ep = record {
  host = ep.host;
  port = ep.port;
  username = ep.username;
  password = ep.password;
  private_key_path = ep.private_key;
  connect_timeout = ep.connect_timeout;
  stall_timeout = ep.stall_timeout;
}
