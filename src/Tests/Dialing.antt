-- ===== src/Tests/Dialing.antt =====
-- Dials of internal/transport at a concrete network. The world of a test counts the connections.
use uploadfun.Base.{
  ℕ, ◌+◌, ◌≡◌, refl, pos, ltb_ℤ, false, [], ◌∷◌, none, some, ok, fail, if◌then◌else◌,
}
use uploadfun.Transports.Auth.{KeyReader}
use uploadfun.Transports.Guard.{
  StallGuard, mark_established, arm_connect_deadline, clear_deadline, read_at, write_at,
  guarded_all, IsTimed, IsBounded, guarded_all-deadlines,
}
use uploadfun.Transports.Sockets.{DialContext, wrap_conn}
use uploadfun.Transports.Ftp.{
  Dialing, FtpLibrary, ftps_config, ftps_options, hand_over, wrap_dialled, ftp_dialer_dial,
  ftp_login, ftp_dial_and_login, session_up, finish_dial, dial_ftp_session,
}
use uploadfun.Transports.Sftp.{KnownHosts, SshLibrary, sftp_options, dial_sftp}
use uploadfun.Transports.SftpDialed.{IsClean, dial_sftp-IsClean}
use uploadfun.Transports.Dialed.{
  OnlyDials, IsReady, IsDataConn, dial_ftp_session-IsReady, dial_ftp_session-IsDataConn,
}
use uploadfun.Tests.{site, refused}

abbrev network : DialContext ℕ
network = λ context timeout address w. (ok w, w + 1)

-- A library that dials once, and a server that asks for nothing.
abbrev plain_ftp : FtpLibrary ℕ ℕ
plain_ftp = record {
  dial = λ address option dial_func d.
      let (result, d1) = dial_func address d in
      (elim result [ fail e ↦ fail e | ok conn ↦ ok 0 ], d1);
  login = λ s username password w. (none, w);
  quit = λ s w. (none, w);
}

plain_ftp-OnlyDials : OnlyDials plain_ftp
plain_ftp-OnlyDials = record {
  keeps = λ P dial_func by_dial by_world address option d p. by_dial address d p;
}

dial_ftp_session-IsReady_example :
    IsReady network plain_ftp plain_ftp-OnlyDials
      (ftps_config (ftps_options site))
      0
      (dial_ftp_session network plain_ftp (ftps_config (ftps_options site)) 0)
dial_ftp_session-IsReady_example =
    dial_ftp_session-IsReady network plain_ftp plain_ftp-OnlyDials (ftps_config (ftps_options site))
      0 0

abbrev up_and_running : Dialing ℕ
up_and_running = (dial_ftp_session network plain_ftp (ftps_config (ftps_options site)) 0).1

session_is_up :
    dial_ftp_session network plain_ftp (ftps_config (ftps_options site)) 0 ≡ (ok 0, up_and_running)
unfolding dial_ftp_session finish_dial ftp_dial_and_login ftp_login ftp_dialer_dial wrap_dialled
    hand_over wrap_conn ftps_config ftps_options
session_is_up = refl

control_conn : up_and_running.dialer.ctrl_conn ≡ some 0
unfolding dial_ftp_session finish_dial ftp_dial_and_login ftp_login ftp_dialer_dial wrap_dialled
    hand_over wrap_conn ftps_config ftps_options session_up
control_conn = refl

dial_ftp_session-IsDataConn_example :
    IsDataConn network plain_ftp plain_ftp-OnlyDials
      (ftps_config (ftps_options site))
      up_and_running.net.deeds
      (ftp_dialer_dial network "ftp.example:30000" up_and_running)
dial_ftp_session-IsDataConn_example =
    dial_ftp_session-IsDataConn network plain_ftp plain_ftp-OnlyDials
      (ftps_config (ftps_options site)) 0 "ftp.example:30000" 0 up_and_running 0 session_is_up
      control_conn

-- A server that takes the connection and refuses the handshake.
abbrev refusing : SshLibrary ℕ ℕ ℕ ℕ ℕ
refusing = record {
  new_client = λ conn address cfg w. (fail refused, w);
  new_sftp = λ client w. (ok 0, w);
  close_conn = λ conn w. w;
  close_client = λ client w. w;
}

abbrev reader : KeyReader ℕ
reader = record {
  read_file = λ path. ok "key";
  parse = λ bytes. ok 7;
  parse_with_passphrase = λ bytes passphrase. ok 7;
}

abbrev hosts : KnownHosts ℕ
hosts = record { home_dir = ok "/home/u"; stat_err = λ path. none; new = λ path. ok 1 }

dial_sftp-IsClean_example :
    IsClean
      (sftp_options site).stall_timeout
      (dial_sftp network refusing reader hosts (sftp_options site) 0)
dial_sftp-IsClean_example = dial_sftp-IsClean network refusing (sftp_options site) reader hosts 0

guarded_all-deadlines_example :
    let guard : StallGuard = record { stall_timeout = pos 300; established = false } in
    let armed = arm_connect_deadline (pos 30) 5 (record { read = none; write = none }) in
    let later =
      guarded_all (mark_established guard) (read_at 50 ∷ write_at 60 ∷ []) (clear_deadline armed) in
    IsBounded (some (5 + 30)) (guarded_all guard (write_at 6 ∷ []) armed)
    × (if ltb_ℤ (pos 0) (pos 300) then IsTimed 300 later else IsBounded none later)
guarded_all-deadlines_example =
    guarded_all-deadlines (pos 30) (pos 300) 5 (write_at 6 ∷ []) (read_at 50 ∷ write_at 60 ∷ [])
      (record { read = none; write = none }) refl
