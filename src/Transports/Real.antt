-- ===== src/Transports/Real.antt =====
-- transports.go: `dialFTPClient`, `dialFTPSClient` and `dialSFTPClient`, over the dials of
-- internal/transport and the libraries below them.
use uploadfun.Base.{ℕ, ℤ, String, Result, ok, fail}
use uploadfun.Transports.Adapter.{RemoteClient, Dial, Dialers}
use uploadfun.Transports.Auth.{KeyReader}
use uploadfun.Transports.Session.{FtpConn, SftpConn, ftp_client, sftp_client}
use uploadfun.Transports.Sockets.{DialContext}
use uploadfun.Transports.Ftp.{Dialing, FtpLibrary, ftp_options, ftps_options, dial_ftp, dial_ftps}
use uploadfun.Transports.Sftp.{
  KnownHosts, SshLibrary, SftpClient, SftpDialing, sftp_options, dial_sftp,
}

-- What the dials stand on. `dial_context` is given the timeout of the context of the connect; an open
-- session is used through `ftp_conn` and `sftp_conn`, which for FTP also dials its data connections.
pub record Libraries (F S K H C W : Type 0) : Type 0 where
  pub dial_context : ℤ → DialContext W
  pub stat_local : String → W → Result ℕ × W
  pub ftp : FtpLibrary F W
  pub ftp_conn : F → Dialing W → FtpConn W
  pub reader : KeyReader S
  pub hosts : KnownHosts K
  pub ssh : SshLibrary S K H C W
  pub sftp_conn : SftpClient H C → SftpConn W

module _ {F S K H C W : Type 0} (libraries : Libraries F S K H C W) where
  open libraries use {dial_context, stat_local, ftp, ftp_conn, reader, hosts, ssh, sftp_conn}

  unfoldable pub ftp_result : Result F × Dialing W → Result (RemoteClient W) × W
  ftp_result (fail e, d) = (fail e, d.net.world)
  ftp_result (ok s, d) = (ok (ftp_client stat_local (ftp_conn s d)), d.net.world)

  unfoldable pub dial_ftp_client : Dial W
  dial_ftp_client timeout ep world =
      ftp_result (dial_ftp (dial_context timeout) ftp (ftp_options ep) world)

  unfoldable pub dial_ftps_client : Dial W
  dial_ftps_client timeout ep world =
      ftp_result (dial_ftps (dial_context timeout) ftp (ftps_options ep) world)

  unfoldable pub sftp_result : Result (SftpClient H C) × SftpDialing W → Result (RemoteClient W) × W
  sftp_result (fail e, d) = (fail e, d.net.world)
  sftp_result (ok s, d) = (ok (sftp_client stat_local (sftp_conn s)), d.net.world)

  unfoldable pub dial_sftp_client : Dial W
  dial_sftp_client timeout ep world =
      sftp_result (dial_sftp (dial_context timeout) ssh reader hosts (sftp_options ep) world)

  unfoldable pub real_dialers : Dialers W
  real_dialers = record {
    dial_ftp = dial_ftp_client;
    dial_ftps = dial_ftps_client;
    dial_sftp = dial_sftp_client;
  }
