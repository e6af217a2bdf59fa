-- ===== src/Cli/Output.antt =====
-- cmd/uploadfun/printer.go: where the lines go, what they are, and the flag of `processEvents`.
use uploadfun.Base.{
  ℕ, ◌+◌, ◌≡◌, String, Bool, true, false, ◌||◌, List, [], ◌∷◌, All, length, any, count, none,
  is_some, arith, if◌then◌else◌,
}
use uploadfun.Upload.{
  UploadEvent, progress, file_success, file_error, endpoint_unreachable, endpoint_given_up,
  endpoint_done, dry_run,
}
use uploadfun.Dispatch.Stream.{is_failure}
use uploadfun.Cli.Json.{Line, text, object}
use uploadfun.Cli.Printer.{
  OutputMode, default, quiet, Printer, Format, new_printer, write_stdout, write_stderr,
  write_unless_quiet, print_progress, handle_progress, handle, flag_after, process_from,
  process_events,
}

-- An event that reports an error.
abbrev pub is_error : UploadEvent → Bool
is_error (file_error _ _ _ _ _) = true
is_error (endpoint_unreachable _ _ _) = true
is_error (endpoint_given_up _ _ _) = true
is_error (dry_run _ _ err) = is_some err
is_error _ = false

-- One that the default mode has a line for on the standard output.
abbrev pub is_result : UploadEvent → Bool
is_result (file_success _ _ _ _) = true
is_result (endpoint_done _ _ _ _) = true
is_result (dry_run _ _ none) = true
is_result _ = false

-- The line is an object exactly if JSON is asked for.
abbrev pub HasFormat : Bool → Line → Type 0
HasFormat true (text _) = ⊥
HasFormat false (object _) = ⊥
HasFormat _ _ = Unit {0}

-- All lines have the format that the printer is set to.
pub record IsFormatted {C : Type 0} (json : Bool) (p : Printer C) : Type 0 where
  pub flag : p.json ≡ json
  pub out : All (HasFormat json) p.stdout
  pub err : All (HasFormat json) p.stderr

-- What a printer keeps but for its standard output and its memory.
record SameErrors {C : Type 0} (p' p : Printer C) : Type 0 where
  same_stderr : p'.stderr ≡ p.stderr
  same_mode : p'.mode ≡ p.mode

module _ {C : Type 0} (format : Format C) where
  handle_progress-SameErrors :
      (endpoint file : String) (sent total : ℕ) (p : Printer C)
      → SameErrors (handle_progress format endpoint file sent total p) p
  unfolding handle_progress print_progress write_stdout
  handle_progress-SameErrors endpoint file sent total p = ground arith

  handle_progress-IsFormatted :
      (json : Bool) (endpoint file : String) (sent total : ℕ) (p : Printer C)
      → IsFormatted json p
      → IsFormatted json (handle_progress format endpoint file sent total p)
  unfolding handle_progress print_progress write_stdout
  handle_progress-IsFormatted json endpoint file sent total p f = ground arith

  handle-errors :
      (ev : UploadEvent) (p : Printer C)
      → let p' = handle format ev p in
        (length p'.stderr ≡ length p.stderr + (if is_error ev then 1 else 0))
        × (p'.mode ≡ p.mode)
        × (p.mode ≡ quiet → p'.stdout ≡ p.stdout)
        × (p.mode ≡ default → length p'.stdout ≡ length p.stdout + (if is_result ev then 1 else 0))
  unfolding handle write_unless_quiet write_stdout write_stderr
  handle-errors (progress endpoint file sent total) p =
      ground (arith, handle_progress-SameErrors endpoint file sent total p)
  handle-errors ev p = ground arith

  handle-IsFormatted :
      (json : Bool) (ev : UploadEvent) (p : Printer C)
      → IsFormatted json p
      → IsFormatted json (handle format ev p)
  unfolding handle write_unless_quiet write_stdout write_stderr
  handle-IsFormatted json (progress endpoint file sent total) p f =
      ground (arith, handle_progress-IsFormatted json endpoint file sent total p f)
  handle-IsFormatted json ev p f = ground arith

  process_from-errors :
      (events : List UploadEvent) (flag : Bool) (p : Printer C)
      → let p' = (process_from format events flag p).0 in
        (length p'.stderr ≡ length p.stderr + count is_error events)
        × (p.mode ≡ quiet → p'.stdout ≡ p.stdout)
        × (p.mode ≡ default → length p'.stdout ≡ length p.stdout + count is_result events)
  unfolding process_from
  process_from-errors [] flag p = ground arith
  process_from-errors (ev ∷ events) flag p =
      let p1 = handle format ev p in
      ground (arith, handle-errors ev p, process_from-errors events (flag_after format ev flag) p1)

  process_from-IsFormatted :
      (json : Bool) (events : List UploadEvent) (flag : Bool) (p : Printer C)
      → IsFormatted json p
      → IsFormatted json (process_from format events flag p).0
  unfolding process_from
  process_from-IsFormatted json [] flag p f = f
  process_from-IsFormatted json (ev ∷ events) flag p f =
      process_from-IsFormatted json events (flag_after format ev flag) (handle format ev p)
        (handle-IsFormatted json ev p f)

  process_from-flag :
      (events : List UploadEvent) (flag : Bool) (p : Printer C)
      → (process_from format events flag p).1 ≡ (flag || any is_failure events)
  unfolding process_from flag_after
  process_from-flag [] flag p = ground arith
  process_from-flag (ev ∷ events) flag p =
      ground (arith, process_from-flag events (flag_after format ev flag) (handle format ev p))

  -- In every mode each error event adds one line to the standard error and no other event adds one;
  -- in the quiet mode nothing
  -- reaches the standard output, and in the default mode each success, each done endpoint and each
  -- dry run that went well adds one line there and no other event adds one.
  pub process_events-errors :
      (events : List UploadEvent) (mode : OutputMode) (json : Bool) (clock : C)
      → let p = (process_events format events (new_printer mode json clock)).0 in
        (length p.stderr ≡ count is_error events)
        × (mode ≡ quiet → p.stdout ≡ [])
        × (mode ≡ default → length p.stdout ≡ count is_result events)
  unfolding process_events new_printer
  process_events-errors events mode json clock =
      ground (arith, process_from-errors events false (new_printer mode json clock))

  -- With `--json` every line of both outputs is an object, without it every line is text.
  pub process_events-IsFormatted :
      (events : List UploadEvent) (mode : OutputMode) (json : Bool) (clock : C)
      → IsFormatted json (process_events format events (new_printer mode json clock)).0
  unfolding process_events new_printer
  process_events-IsFormatted events mode json clock =
      process_from-IsFormatted json events false (new_printer mode json clock) (ground arith)

  -- The flag of `processEvents` says whether some report said that something failed.
  pub process_events-flag :
      (events : List UploadEvent) (p : Printer C)
      → (process_events format events p).1 ≡ any is_failure events
  unfolding process_events
  process_events-flag events p = process_from-flag events false p
