-- ===== src/Harness/Servers.antt =====
-- internal/testservers: the FTP and SFTP servers.
use Prim.Native.Char.{code}
use uploadfun.Base.{
  ℕ, zero, suc, ◌*◌, nat_eq, ℤ, String, ◌<>◌, Bool, true, false, ◌||◌, is_some, List, [], ◌∷◌,
  Option, none, some, Err, message, if◌then◌else◌,
}
use uploadfun.Base.Text.{show_ℤ, join_path, is_empty}
use uploadfun.Upload.{second}
use uploadfun.Harness.Machine.{
  Host, Action, pure, ◌>>=◌, ◌>>◌, exit_with, exec, mkdir_all, write_file, sleep,
}
use uploadfun.Harness.Docker.{remove, run, wait_for_port}

pub record PureFtpdOptions : Type 0 where
  pub container_name : String
  pub control_port : ℤ
  pub data_port_range : String
  pub cert_path : String
  pub username : String
  pub password : String

pub record AtmozSftpOptions : Type 0 where
  pub container_name : String
  pub port : ℤ
  pub username : String
  pub password : String
  pub chroot_subdir : String
  pub known_hosts_home : String

-- `strings.Replace(s, "-", ":", 1)`
unfoldable pub replace_dash : String → String
replace_dash String.[] = ""
replace_dash (String.◌∷◌ c s) =
    let rest = replace_dash s in
    if nat_eq (code c) b'-' then String.◌∷◌ ":" s else String.◌∷◌ c rest

unfoldable pub pure_ftpd_args : PureFtpdOptions → List String
pure_ftpd_args opts =
    "-p"
    ∷ (show_ℤ opts.control_port <> ":21")
    ∷ "-p"
    ∷ (opts.data_port_range <> ":" <> opts.data_port_range)
    ∷ "-v"
    ∷ (opts.cert_path <> ":/etc/ssl/private/pure-ftpd.pem:ro")
    ∷ "-e"
    ∷ "PUBLICHOST=127.0.0.1"
    ∷ "-e"
    ∷ ("FTP_USER_NAME=" <> opts.username)
    ∷ "-e"
    ∷ ("FTP_USER_PASS=" <> opts.password)
    ∷ "-e"
    ∷ ("FTP_USER_HOME=/home/ftpusers/" <> opts.username)
    ∷ "-e"
    ∷ ("FTP_PASSIVE_PORTS=" <> replace_dash opts.data_port_range)
    ∷ "-e"
    ∷ "ADDED_FLAGS=--tls=1"
    ∷ "stilliard/pure-ftpd:hardened"
    ∷ []

unfoldable pub atmoz_sftp_args : AtmozSftpOptions → List String
atmoz_sftp_args opts =
    "-p"
    ∷ (show_ℤ opts.port <> ":22")
    ∷ "atmoz/sftp:latest"
    ∷ (opts.username <> ":" <> opts.password <> ":1001:1001:" <> opts.chroot_subdir)
    ∷ []

-- How long a server may take to accept connections.
abbrev pub start_timeout : ℕ
start_timeout = 30 * second

abbrev pub scan_attempts : ℕ
scan_attempts = 5

abbrev pub scan_pause : ℕ
scan_pause = 500_000_000

unfoldable pub scan_command : ℤ → List String
scan_command port = "ssh-keyscan" ∷ "-p" ∷ show_ℤ port ∷ "-t" ∷ "ed25519,rsa" ∷ "127.0.0.1" ∷ []

-- The test of a scan: an error, or no output.
abbrev pub scan_failed : String × Option Err → Bool
scan_failed (out, err) = is_some err || is_empty out

-- `fmt.Println` of the error of a scan.
abbrev pub scan_message : Option Err → String
scan_message none = "ssh-keyscan failed: <nil>\n"
scan_message (some e) = "ssh-keyscan failed: " <> message e <> "\n"

abbrev pub local_address : ℤ → String
local_address port = "127.0.0.1:" <> show_ℤ port

module _ {W : Type 0} (host : Host W) where
  -- The loop of `populateKnownHosts`, with what the last scan returned.
  unfoldable pub scan_keys : ℕ → ℤ → String × Option Err → Action W (String × Option Err)
  scan_keys zero port last = pure last
  scan_keys (suc attempts) port last = do
    scan ← exec host (scan_command port)
    elim (scan_failed scan) [
      | false ↦ pure scan
      | true ↦ do sleep host scan_pause; scan_keys attempts port scan
    ]

  unfoldable pub write_known_hosts : String → String → Action W (Unit {0})
  write_known_hosts home keys = do
    err ← write_file host (join_path (join_path home ".ssh") "known_hosts") keys 0o600
    elim err [ none ↦ pure tt | some e ↦ exit_with (message e <> "\n") ]

  unfoldable pub scan_and_write : ℤ → String → Action W (Unit {0})
  scan_and_write port home = do
    scan ← scan_keys scan_attempts port ("", none)
    elim (scan_failed scan) [
      | true ↦ exit_with (scan_message scan.1)
      | false ↦ write_known_hosts home scan.0
    ]

  unfoldable pub populate_known_hosts : ℤ → String → Action W (Unit {0})
  populate_known_hosts port home = do
    err ← mkdir_all host (join_path home ".ssh") 0o700
    elim err [ none ↦ scan_and_write port home | some e ↦ exit_with (message e <> "\n") ]

  -- What is returned is the clean-up.
  unfoldable pub start_pure_ftpd : PureFtpdOptions → Action W (Action W (Unit {0}))
  start_pure_ftpd opts = do
    run host opts.container_name (pure_ftpd_args opts)
    wait_for_port host (local_address opts.control_port) start_timeout
    pure (remove host opts.container_name)

  unfoldable pub start_atmoz_sftp : AtmozSftpOptions → Action W (Action W (Unit {0}))
  start_atmoz_sftp opts = do
    run host opts.container_name (atmoz_sftp_args opts)
    wait_for_port host (local_address opts.port) start_timeout
    populate_known_hosts opts.port opts.known_hosts_home
    pure (remove host opts.container_name)
