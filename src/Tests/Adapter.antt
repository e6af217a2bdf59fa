-- ===== src/Tests/Adapter.antt =====
-- transports.go over scripted clients. The world of a test is a list of answers.
use uploadfun.Base.{
  ℤ, arith, ◌≡◌, ◌++◌, message, refl, false, [], ◌∷◌, Option, none, some, Err, wrap, Result, ok,
  fail, is_permission,
}
use uploadfun.Upload.{Endpoint, overwrite_direct, file_start, file_error, endpoint_done}
use uploadfun.Dispatch.Effects.{new_worker, sent}
use uploadfun.Dispatch.Worker.{run}
use uploadfun.Transports.Adapter.{
  RemoteClient, LocalFiles, Adapted, Dial, transport_uploader, around,
}
use uploadfun.Transports.Clients.{run-panicked}
use uploadfun.Transports.Abandoned.{given_up, run-abandoned}
use uploadfun.Tests.{Answers, next_answer, site, options, denied, files, steady, flaky}

abbrev client : RemoteClient Answers
client = record {
  close = λ w. (none, w);
  delete = λ remote w. next_answer w;
  upload = λ remote file size w. let (err, rest) = next_answer w in ((size, size) ∷ [], err, rest);
  verify = λ file remote w. let (err, rest) = next_answer w in ("size", err, rest);
}

client_or : Option Err → Result (RemoteClient Answers)
client_or none = ok client
client_or (some e) = fail e

abbrev dial_client : Dial Answers
dial_client = λ timeout ep w. let (err, rest) = next_answer w in (client_or err, rest)

abbrev pub readable : LocalFiles Answers
readable = record {
  open_file = λ file w. (none, w);
  stat_size = λ file w. (ok 10, w);
  close_file = λ file w. w;
}

abbrev locked_files : LocalFiles Answers
locked_files = record readable { open_file = λ file w. (some denied, w) }

run-panicked_example :
    let start : Adapted Answers = record { world = flaky; client = none; panicked = false } in
    (run
      (around steady)
      (transport_uploader readable dial_client)
      site
      options
      files
      (new_worker start)).world.panicked
    ≡ false
run-panicked_example = run-panicked steady readable dial_client site options files flaky

abbrev direct_site : Endpoint
direct_site = record site { overwrite = overwrite_direct }

-- Every dial leads to the client.
abbrev open_dial : Dial Answers
open_dial timeout ep w = (ok client, w)

abbrev away : Adapted Answers
away = record { world = []; client = none; panicked = false }

run-abandoned_example :
    (elapsed : ℤ) × (sent
        (run
          (around steady)
          (transport_uploader locked_files open_dial)
          direct_site
          options
          files
          (new_worker away)).log
      ≡ file_start "site" "a/1.jpg" 1
        ∷ file_error "site" "a/1.jpg" 1 (message (wrap "upload: " denied)) (wrap "upload: " denied)
        ∷ (given_up direct_site denied ("a/2.jpg" ∷ []) ++ endpoint_done "site" 0 2 elapsed ∷ []))
unfolding is_permission
run-abandoned_example =
    run-abandoned steady locked_files open_dial direct_site options (λ world. refl)
      (λ timeout ep world. (client, refl)) refl "a/1.jpg" ("a/2.jpg" ∷ []) away denied
      (refl, λ world. refl) (omega arith) (omega arith)
