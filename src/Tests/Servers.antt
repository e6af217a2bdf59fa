-- ===== src/Tests/Servers.antt =====
-- The servers of the integration tests on a machine whose world is its clock, in nanoseconds.
use native.Mathlib.Nat.{le_refl}
use uploadfun.Base.{
  ℕ, ◌+◌, ◌≡◌, refl, pos, leb, String, ◌<>◌, List, [], ◌∷◌, none, root, other, ok, fail,
  if◌then◌else◌,
}
use uploadfun.Base.Text.{show_ℤ}
use uploadfun.Harness.Machine.{
  Host, Machine, dialled, slept, done, dial_port, close_port, now, sleep,
}
use uploadfun.Harness.Docker.{wait_rounds, wait_for_port}
use uploadfun.Harness.Servers.{PureFtpdOptions, AtmozSftpOptions, start_pure_ftpd, start_atmoz_sftp}
use uploadfun.Harness.Waiting.{IsTicking, IsWaited, wait_for_port-IsWaited}
use uploadfun.Harness.Ftpd.{has_no_dash, IsConfigured, start_pure_ftpd-IsConfigured}
use uploadfun.Harness.Started.{IsStarted, IsKnown, start_atmoz_sftp-IsKnown}

-- It accepts connections after half a second, and answers every command with one key.
abbrev host : Host ℕ
host = record {
  exec = λ command w. ("127.0.0.1 ssh-ed25519 AAAA", none, w + 1_000);
  mkdir_all = λ path perm w. (none, w);
  write_file = λ path text perm w. (none, w);
  dial = λ address timeout w.
      (if leb 500_000_000 w then ok 7 else fail (root other "connection refused"), w);
  close = λ conn w. w;
  now = λ w. (w, w);
  sleep = λ duration w. w + duration;
}

abbrev host_time : ℕ → ℕ
host_time w = w

host-IsTicking : IsTicking host host_time
host-IsTicking = record {
  reads = λ w. refl;
  after_now = λ w. le_refl w;
  after_sleep = λ duration w. le_refl (w + duration);
  after_dial = λ address timeout w. le_refl w;
}

abbrev start : Machine ℕ
start = record { world = 0; deeds = [] }

-- The third dial is accepted.
wait_for_port-run :
    wait_for_port host "127.0.0.1:2121" 30_000_000_000 start
    ≡ done tt (record {
      world = 600_000_000;
      deeds =
          dialled "127.0.0.1:2121" (ok 7)
          ∷ slept 300_000_000
          ∷ dialled "127.0.0.1:2121" (fail (root other "connection refused"))
          ∷ slept 300_000_000
          ∷ dialled "127.0.0.1:2121" (fail (root other "connection refused"))
          ∷ [];
    })
unfolding wait_for_port wait_rounds dial_port close_port now sleep
wait_for_port-run = refl

wait_for_port-IsWaited_example :
    IsWaited host host_time "127.0.0.1:2121" 30_000_000_000 []
      (wait_for_port host "127.0.0.1:2121" 30_000_000_000 start)
wait_for_port-IsWaited_example =
    wait_for_port-IsWaited host host_time "127.0.0.1:2121" 30_000_000_000 start host-IsTicking

abbrev ftpd_options : PureFtpdOptions
ftpd_options = record {
  container_name = "uploadfun-ftp";
  control_port = pos 2121;
  data_port_range = "30000-30009";
  cert_path = "/tmp/cert.pem";
  username = "u";
  password = "p";
}

start_pure_ftpd-IsConfigured_example :
    (words : List String) × IsConfigured ftpd_options "30000" "30009" words
    × IsStarted host "uploadfun-ftp" words
        ("127.0.0.1:" <> show_ℤ (pos 2121))
        []
        (start_pure_ftpd host ftpd_options start)
unfolding has_no_dash
start_pure_ftpd-IsConfigured_example =
    start_pure_ftpd-IsConfigured host ftpd_options "30000" "30009" host_time start refl refl
      host-IsTicking

abbrev sftp_server : AtmozSftpOptions
sftp_server = record {
  container_name = "uploadfun-sftp";
  port = pos 2222;
  username = "u";
  password = "p";
  chroot_subdir = "upload";
  known_hosts_home = "/tmp/home";
}

start_atmoz_sftp-IsKnown_example :
    IsKnown host sftp_server 7 (start_atmoz_sftp host sftp_server start)
start_atmoz_sftp-IsKnown_example =
    start_atmoz_sftp-IsKnown host sftp_server host_time start host-IsTicking
