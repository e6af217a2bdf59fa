-- ===== src/Cli/Printer.antt =====
-- cmd/uploadfun/printer.go: what the command prints for the events of an upload.
use uploadfun.Base.{
  ℕ, ℤ, pos, ltb, leb, String, ◌<>◌, ◌==◌, Bool, true, false, not, ◌&&◌, List, [], ◌∷◌, length,
  none, some, is_some, if◌then◌else◌, message,
}
use uploadfun.Base.Text.{show_ℕ, show_ℤ}
use uploadfun.Upload.{
  UploadEvent, file_start, progress, file_success, file_error, endpoint_unreachable,
  endpoint_given_up, endpoint_done, dry_run,
}
use uploadfun.Cli.Json.{Line, text, object, json_payload}
use uploadfun.Cli.Throttle.{
  ProgressState, fresh, ProgressMap, find_progress, delete_progress, put_progress, progress_key,
  percent_of, bucket_of, eq_ℤ, is_recent, state_or_fresh,
}

pub data OutputMode : Type 0 where
  default quiet verbose : OutputMode

unfoldable pub output_mode_for : (quiet_flag verbose_flag : Bool) → OutputMode
output_mode_for true _ = quiet
output_mode_for false true = verbose
output_mode_for false false = default

-- The two outputs hold their lines with the latest first. `clock` is what `now` reads.
pub record Printer (C : Type 0) : Type 0 where
  pub stdout : List Line
  pub stderr : List Line
  pub mode : OutputMode
  pub json : Bool
  pub progress_map : ProgressMap
  pub clock : C

unfoldable pub new_printer : {C : Type 0} → OutputMode → Bool → C → Printer C
new_printer mode json clock = record {
  stdout = [];
  stderr = [];
  mode = mode;
  json = json;
  progress_map = [];
  clock = clock;
}

-- `p.now`, and `formatSeconds`, which is `%.2fs` of a duration's seconds as a float.
pub record Format (C : Type 0) : Type 0 where
  pub now : C → ℕ × C
  pub format_seconds : ℤ → String

abbrev pub is_quiet : OutputMode → Bool
is_quiet quiet = true
is_quiet _ = false

abbrev pub is_verbose : OutputMode → Bool
is_verbose verbose = true
is_verbose _ = false

abbrev pub line_of : Bool → UploadEvent → String → Line
line_of json ev msg = if json then object (json_payload ev) else text msg

-- `p.write` to either output.
unfoldable pub write_stdout : {C : Type 0} → UploadEvent → String → Printer C → Printer C
write_stdout ev msg p = record p { stdout = line_of p.json ev msg ∷ p.stdout }

unfoldable pub write_stderr : {C : Type 0} → UploadEvent → String → Printer C → Printer C
write_stderr ev msg p = record p { stderr = line_of p.json ev msg ∷ p.stderr }

unfoldable pub write_unless_quiet : {C : Type 0} → UploadEvent → String → Printer C → Printer C
write_unless_quiet ev msg p = if is_quiet p.mode then p else write_stdout ev msg p

module _ {C : Type 0} (format : Format C) where
  abbrev pub label : (endpoint file : String) → String
  label endpoint file = "[" <> endpoint <> "] " <> file

  -- The last part of `handleProgress`: the interval, and the line.
  unfoldable pub print_progress :
      (endpoint file : String) (sent total : ℕ) → ProgressState → Printer C → Printer C
  print_progress endpoint file sent total st p =
      let percent = percent_of sent total in
      let (now, clock) = format.now p.clock in
      let p1 = record p { clock = clock } in
      if is_recent st.last_printed now && not (leb total sent)
      then p1
      else (let st1 : ProgressState = record {
        last_percent = bucket_of percent;
        last_printed = some now;
      } in
          write_stdout (progress endpoint file sent total)
            (label endpoint file
              <> ": "
              <> show_ℤ percent
              <> "% ("
              <> show_ℕ sent
              <> "/"
              <> show_ℕ total
              <> " bytes)")
            (record p1 {
              progress_map = put_progress (progress_key endpoint file) st1 p1.progress_map;
            }))

  unfoldable pub handle_progress : (endpoint file : String) (sent total : ℕ) → Printer C → Printer C
  handle_progress endpoint file sent total p =
      let key = progress_key endpoint file in
      let found = find_progress key p.progress_map in
      let st = state_or_fresh found in
      let p1 =
        if is_some found
        then p
        else record p { progress_map = put_progress key st p.progress_map } in
      let bucket = bucket_of (percent_of sent total) in
      if eq_ℤ bucket (pos 0) && not (leb total sent)
      then p1
      else if eq_ℤ bucket st.last_percent
      then p1
      else print_progress endpoint file sent total st p1

  unfoldable pub success_message : (endpoint file method : String) → ℤ → String
  success_message endpoint file method elapsed =
      label endpoint file
      <> ": uploaded"
      <> (if method == "" then "" else " (verified: " <> method <> ")")
      <> " in "
      <> format.format_seconds elapsed

  unfoldable pub handle : UploadEvent → Printer C → Printer C
  handle (file_start endpoint file attempt) p =
      if is_verbose p.mode
      then write_stdout (file_start endpoint file attempt)
          (label endpoint file <> ": starting upload")
          (record p {
            progress_map = put_progress (progress_key endpoint file) fresh p.progress_map;
          })
      else p
  handle (progress endpoint file sent total) p =
      if is_verbose p.mode then handle_progress endpoint file sent total p else p
  handle (file_success endpoint file method elapsed) p =
      write_unless_quiet (file_success endpoint file method elapsed)
        (success_message endpoint file method elapsed)
        (record p { progress_map = delete_progress (progress_key endpoint file) p.progress_map })
  handle (file_error endpoint file attempt reason err) p =
      write_stderr (file_error endpoint file attempt reason err)
        (label endpoint file <> ": attempt " <> show_ℕ attempt <> " failed: " <> reason) p
  handle (endpoint_unreachable endpoint n skipped) p =
      write_stderr (endpoint_unreachable endpoint n skipped)
        ("["
          <> endpoint
          <> "] endpoint unreachable after "
          <> show_ℕ n
          <> " consecutive connect failures: skipping "
          <> show_ℕ (length skipped)
          <> " remaining file(s)")
        p
  handle (endpoint_given_up endpoint reason skipped) p =
      write_stderr (endpoint_given_up endpoint reason skipped)
        ("["
          <> endpoint
          <> "] giving up after unrecoverable error ("
          <> reason
          <> "): skipping "
          <> show_ℕ (length skipped)
          <> " remaining file(s)")
        p
  handle (endpoint_done endpoint succeeded failed elapsed) p =
      write_unless_quiet (endpoint_done endpoint succeeded failed elapsed)
        ("["
          <> endpoint
          <> "] done: "
          <> show_ℕ succeeded
          <> " succeeded, "
          <> show_ℕ failed
          <> " failed in "
          <> format.format_seconds elapsed)
        p
  handle (dry_run endpoint files (some e)) p =
      write_stderr (dry_run endpoint files (some e))
        ("[" <> endpoint <> "] dry-run failed: " <> message e) p
  handle (dry_run endpoint files none) p =
      write_unless_quiet (dry_run endpoint files none)
        ("["
          <> endpoint
          <> "] dry-run ok: reachable and writable, would upload "
          <> show_ℕ files
          <> " files")
        p

  -- The `switch` of `processEvents`: the flag after an event.
  unfoldable pub flag_after : UploadEvent → Bool → Bool
  flag_after (endpoint_done _ _ failed _) flag = if ltb 0 failed then true else flag
  flag_after (dry_run _ _ err) flag = if is_some err then true else flag
  flag_after _ flag = flag

  -- The loop of `processEvents`, from a flag.
  unfoldable pub process_from : List UploadEvent → Bool → Printer C → Printer C × Bool
  process_from [] flag p = (p, flag)
  process_from (ev ∷ events) flag p = process_from events (flag_after ev flag) (handle ev p)

  unfoldable pub process_events : List UploadEvent → Printer C → Printer C × Bool
  process_events events p = process_from events false p
