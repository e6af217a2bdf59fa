-- ===== src/Tests/Session.antt =====
-- An upload to a concrete SFTP server. The world of a test is a list of answers.
use uploadfun.Base.{
  ℕ, ◌≡◌, refl, sym, String, true, false, [], ◌∷◌, none, some, Result, ok, is_permission,
}
use uploadfun.Dispatch.Effects.{Worker, new_worker}
use uploadfun.Dispatch.Worker.{
  settled, emit_progress, read_clock, poll_context, dial, connect, disconnect, sleep_retry_delay,
  sleep_before_retry, delete_existing, send, confirm, transfer, try_transfer, reconnect,
  attempt_once, upload_attempts, upload_file,
}
use uploadfun.Transports.Adapter.{
  Adapted, Dial, connect_with, close_client, delete_remote, verify_remote, upload_open,
  upload_local, transport_uploader, around,
}
use uploadfun.Transports.Conn.{verify_by_size, compare_sizes, read_reports}
use uploadfun.Transports.Session.{
  SftpConn, is_not_exist, forgive, join_two, close_both, stream_to_close, upload_sftp, sftp_client,
}
use uploadfun.Transports.Live.{IsSftp, EndsStored}
use uploadfun.Transports.Assured.{upload_file-EndsStored}
use uploadfun.Tests.{Answers, next_answer, steady, site, options, refused}
use uploadfun.Tests.Adapter.{readable}

abbrev server : SftpConn Answers
server = record {
  close_sftp = λ w. (none, w);
  close_ssh = λ w. (none, w);
  remove = λ remote w. next_answer w;
  create = λ remote w. next_answer w;
  copy = λ file w. let (err, rest) = next_answer w in (4 ∷ 0 ∷ 6 ∷ [], err, rest);
  close_remote = λ w. next_answer w;
  remote_stat = λ remote w. (ok 10, w);
}

abbrev stat_ten : String → Answers → Result ℕ × Answers
stat_ten file w = (ok 10, w)

abbrev session : Adapted Answers
session = record { world = []; client = some (sftp_client stat_ten server); panicked = false }

abbrev dial_server : Dial Answers
dial_server timeout ep w = (ok (sftp_client stat_ten server), w)

session_upload :
    (try_transfer
      (around steady)
      (transport_uploader readable dial_server)
      site
      options
      "a/1.jpg"
      1
      (new_worker session)).1
    ≡ settled true
unfolding new_worker next_answer try_transfer transfer delete_existing send confirm emit_progress
    read_clock sftp_client upload_sftp stream_to_close verify_by_size compare_sizes read_reports
    is_permission disconnect transport_uploader around upload_local upload_open delete_remote
    verify_remote forgive
session_upload = refl

-- The first attempt fails: the server refuses the file. The second, in another session, succeeds.
abbrev unconnected : Worker (Adapted Answers)
unconnected = record {
  world = record { world = none ∷ some refused ∷ none ∷ []; client = none; panicked = false };
  log = [];
  connected = false;
  consecutive_connect_failures = 0;
  permanent_err = none;
}

ok_injective : {A : Type 0} (a b : A) → ok a ≡ ok b → a ≡ b
ok_injective a b h = cc

abbrev IsServer : SftpConn Answers → Type 0
IsServer conn = conn ≡ server

dial_server-IsSftp : IsSftp stat_ten IsServer dial_server
dial_server-IsSftp timeout ep w client h = (server, refl, ok_injective _ _ (sym h))

uploaded :
    (upload_file
      (around steady)
      (transport_uploader readable dial_server)
      site
      options
      "a/1.jpg"
      unconnected).1
    ≡ true
unfolding next_answer upload_file upload_attempts attempt_once poll_context reconnect connect dial
    connect_with close_client close_both join_two sleep_before_retry sleep_retry_delay try_transfer
    transfer delete_existing send confirm emit_progress read_clock sftp_client upload_sftp
    stream_to_close verify_by_size compare_sizes read_reports is_permission is_not_exist disconnect
    transport_uploader around upload_local upload_open delete_remote verify_remote forgive
uploaded = refl

upload_file-EndsStored_example :
    EndsStored steady readable stat_ten IsServer "a/1.jpg"
      (upload_file
        (around steady)
        (transport_uploader readable dial_server)
        site
        options
        "a/1.jpg"
        unconnected).0
upload_file-EndsStored_example =
    upload_file-EndsStored steady readable dial_server stat_ten IsServer site options
      dial_server-IsSftp refl "a/1.jpg" unconnected (λ h. absurd cc) uploaded
