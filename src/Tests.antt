-- ===== src/Tests.antt =====
-- Runs over a scripted uploader, and the theorems at concrete data. The world of a test is a list of
-- answers: each call that can fail takes the next one, and succeeds when none is left.
pub mod Command
pub mod Adapter
pub mod Configuration
pub mod Decision
pub mod Session
pub mod Recovery
pub mod Signals
pub mod Dialing
pub mod Order
pub mod Transfer
pub mod Whole
pub mod Servers
use mathlib.Core.List.{flatten}
use uploadfun.Base.{
  ◌↔◌, map, ℕ, ◌≡◌, ◌≢◌, refl, ℤ, pos, String, ◌==◌, true, false, List, [], ◌∷◌, Option, none, some,
  Err, root, permission, other, Result, ok, fail, length, reverse, All, if◌then◌else◌,
  is_permission, any, count, ◌≤◌, ◌+◌, ◌*◌, ◌⊎◌,
}
use uploadfun.Upload.{
  dry_run, Protocol, Endpoint, Options, UploadEvent, overwrite_delete_first, progress, file_success,
  file_error, endpoint_done,
}
use uploadfun.Dispatch.Effects.{Uploader, Process, Log, new_worker, sent}
use uploadfun.Dispatch.Worker.{
  sleep_retry_delay, emit_progress, poll_context, read_clock, circuit_open, skip_remaining, dial,
  connect, report_giving_up, disconnect, sleep_before_retry, skip_given_up, abandon,
  delete_existing, send, confirm, transfer, try_transfer, reconnect, attempt_once, upload_attempts,
  upload_file, visit, visit_all, run, Tally,
}
use uploadfun.Dispatch.Session.{is_open, IsSession, run-IsSession}
use uploadfun.Dispatch.Tally.{success_files, reports, last_event, run-reports}
use uploadfun.Dispatch.Success.{IsJustified, run-IsJustified}
use uploadfun.Dispatch.Breaker.{IsLimited, run-IsLimited}
use uploadfun.Dispatch.Permanent.{IsQuiet, run-IsQuiet}
use uploadfun.Dispatch.Budget.{starts, connects, errors, Excused, upload_file-counts, run-counts}
use uploadfun.Dispatch.Probe.{
  remote_name_of, outcome, new_probe_file, probe_remote_name, round_trip, probe_writable,
  run_dry_run,
}
use uploadfun.Dispatch.DryRun.{
  has_failed, created, removed, IsHarmless, run_dry_run-sent, run_dry_run-IsHarmless,
}
use uploadfun.Dispatch.Fan.{run_endpoint}
use uploadfun.Dispatch.Stream.{
  is_report, is_failure, UploadsAll, Shuffles-flatten, Delivered-count-report, Delivered-failure,
}
use uploadfun.Cli.Printer.{quiet, default, verbose, Format, new_printer, process_events}
use uploadfun.Cli.Output.{IsFormatted, process_events-errors, process_events-IsFormatted}

abbrev pub Answers : Type 0
Answers = List (Option Err)

unfoldable pub next_answer : Answers → Option Err × Answers
next_answer [] = (none, [])
next_answer (a ∷ rest) = (a, rest)

abbrev pub scripted : Uploader Answers
scripted = record {
  connect = λ timeout ep w. next_answer w;
  disconnect = λ w. (none, w);
  delete = λ remote w. next_answer w;
  upload = λ file remote w. let (err, rest) = next_answer w in ((5, 10) ∷ (10, 10) ∷ [], err, rest);
  verify = λ file remote w. let (err, rest) = next_answer w in ("size", err, rest);
}

abbrev pub steady : Process Answers
steady = record {
  ctx_err = λ w. (none, w);
  now = λ w. (0, w);
  sleep = λ delay w. w;
  create_temp = λ w. (none, "/tmp/uploadfun-probe-1", w);
  write_string = λ name text w. next_answer w;
  remove = λ name w. w;
  random_bytes = λ w. (1 ∷ 171 ∷ [], w);
}

abbrev pub site : Endpoint
site = record {
  name = "site";
  protocol = "ftp";
  host = "ftp.example";
  port = pos 0;
  username = "u";
  password = "p";
  private_key = "";
  overwrite = overwrite_delete_first;
  insecure_skip_verify = false;
  attempts = pos 2;
  retry_delay = pos 1;
  connect_timeout = pos 1;
  stall_timeout = pos 0;
  max_consecutive_connect_failures = pos 3;
}

abbrev pub options : Options
options = record { no_verify = false; dry_run = false }

abbrev pub refused : Err
refused = root other "connection refused"

abbrev pub denied : Err
denied = root permission "permission denied"

abbrev pub files : List String
files = "a/1.jpg" ∷ "a/2.jpg" ∷ []

unfoldable pub run_site : Answers → Log
unfolding emit_progress poll_context read_clock circuit_open skip_remaining dial connect
    report_giving_up disconnect sleep_before_retry sleep_retry_delay skip_given_up abandon
    delete_existing send confirm transfer try_transfer reconnect attempt_once upload_attempts
    upload_file visit visit_all run new_worker next_answer
run_site w = (run steady scripted site options files (new_worker w)).log

-- The first connect and the first upload fail, and then all goes well.
flaky_run : success_files (run_site (some refused ∷ none ∷ none ∷ none ∷ none ∷ [])) ≡ reverse files
unfolding run_site
flaky_run = refl

abbrev pub flaky : Answers
flaky = some refused ∷ none ∷ none ∷ some refused ∷ none ∷ []

-- The second upload is refused for lack of permission.
abbrev locked : Answers
locked = none ∷ none ∷ some denied ∷ []

abbrev dead : Answers
dead = some refused ∷ some refused ∷ some refused ∷ []

locked_run : last_event (run_site locked) ≡ some (endpoint_done "site" 0 2 (pos 0))
unfolding run_site is_permission
locked_run = refl

run-IsSession_example : IsSession (run_site flaky) × (is_open (run_site flaky) ≡ false)
unfolding run_site
run-IsSession_example = run-IsSession steady scripted site options files flaky

run-reports_example :
    (t : Tally) × (elapsed : ℤ) × (reports (run_site locked)
      ≡ endpoint_done "site" t.succeeded t.failed elapsed ∷ [])
    × (last_event (run_site locked) ≡ some (endpoint_done "site" t.succeeded t.failed elapsed))
    × (t.succeeded + t.failed ≡ 2)
    × (t.succeeded ≡ length (success_files (run_site locked)))
    × (t.failed ≡ 0 → success_files (run_site locked) ≡ reverse files)
unfolding run_site
run-reports_example = run-reports steady scripted site options files locked

run-IsJustified_example : IsJustified site options (run_site flaky)
unfolding run_site
run-IsJustified_example = run-IsJustified steady scripted site options files flaky

run-IsLimited_example : IsLimited site (run_site dead)
unfolding run_site
run-IsLimited_example = run-IsLimited steady scripted site options files dead

run-IsQuiet_example : IsQuiet (run_site locked)
unfolding run_site
run-IsQuiet_example = run-IsQuiet steady scripted site options files locked

upload_file-counts_example :
    let (w, done) = upload_file steady scripted site options "a/1.jpg" (new_worker dead) in
    (starts w.log ≤ starts [] + 2)
    × (connects w.log ≤ connects [] + 2)
    × (done ≡ false → Excused steady scripted site options w ⊎ (errors w.log ≡ errors [] + 2))
unfolding new_worker
upload_file-counts_example =
    upload_file-counts steady scripted site options "a/1.jpg" (new_worker dead)

run-counts_example : (starts (run_site dead) ≤ 2 * 2) × (connects (run_site dead) ≤ 2 * 2)
unfolding run_site
run-counts_example = run-counts steady scripted site options files dead

dry_log : Answers → Log
unfolding run_dry_run probe_writable new_probe_file probe_remote_name round_trip outcome next_answer
dry_log w = (run_dry_run steady scripted site files (record { world = w; log = [] })).log

dry_run_ok : sent (dry_log []) ≡ dry_run "site" 2 none ∷ []
unfolding dry_log
dry_run_ok = refl

run_dry_run-sent_example :
    (err : Option Err) × (n : ℕ) × (sent (dry_log dead) ≡ dry_run "site" n err ∷ [])
    × (has_failed (dry_log dead) ≡ true → (n ≡ 0) × (err ≢ none))
    × (has_failed (dry_log dead) ≡ false → (n ≡ length files) × (err ≡ none))
unfolding dry_log
run_dry_run-sent_example = run_dry_run-sent steady scripted site files dead

run_dry_run-IsHarmless_example :
    IsSession (dry_log [])
    × (is_open (dry_log []) ≡ false)
    × (removed (dry_log []) ≡ created (dry_log []))
    × ((bytes : List ℕ) × IsHarmless (remote_name_of bytes) (dry_log []))
unfolding dry_log
run_dry_run-IsHarmless_example = run_dry_run-IsHarmless steady scripted site files []

abbrev pub new_uploader : Protocol → Result (Uploader Answers)
new_uploader protocol =
    if protocol == "ftp" then ok scripted else fail (root other "no transport registered")

-- Two good endpoints and one of an unknown protocol.
abbrev sites : List (Endpoint × Answers)
sites = (site, flaky) ∷ (record site { name = "old"; protocol = "gopher" }, []) ∷ (site, []) ∷ []

abbrev site_streams : List (List UploadEvent)
site_streams = map (λ (ep, w). sent (run_endpoint steady new_uploader options files ep w)) sites

Delivered-count-report_example : count is_report (flatten site_streams) ≡ 3
Delivered-count-report_example =
    Delivered-count-report steady new_uploader options files sites (Shuffles-flatten site_streams)

Delivered-failure_example :
    (any is_failure (flatten site_streams) ≡ false)
    ↔ All (UploadsAll steady new_uploader options files) sites
Delivered-failure_example =
    Delivered-failure steady new_uploader options files sites refl (Shuffles-flatten site_streams)

abbrev pub plain : Format ℕ
plain = record { now = λ t. (t, t + 400_000_000); format_seconds = λ d. "0.00s" }

abbrev some_events : List UploadEvent
some_events =
    file_error "site" "a/1.jpg" 1 "upload: broken pipe" refused
    ∷ progress "site" "a/1.jpg" 5 10
    ∷ file_success "site" "a/1.jpg" "size" (pos 0)
    ∷ endpoint_done "site" 1 0 (pos 0)
    ∷ []

process_events-errors_example :
    let p = (process_events plain some_events (new_printer quiet true 0)).0 in
    (length p.stderr ≡ 1)
    × (quiet ≡ quiet → p.stdout ≡ [])
    × (quiet ≡ default → length p.stdout ≡ 2)
process_events-errors_example = process_events-errors plain some_events quiet true 0
