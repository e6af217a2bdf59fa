-- ===== src/Cli/Exit.antt =====
-- cmd/uploadfun/main.go: what the exit code says, from the command line to the uploads.
use uploadfun.Base.{
  ◌≤◌, ◌≡◌, ◌⊎◌, ◌↔◌, String, false, List, All, Distinct, map, any, some, arith, Result, ok,
  if◌then◌else◌,
}
use uploadfun.Base.Text.{base}
use uploadfun.Upload.{Endpoint, Options, Protocol}
use uploadfun.Dispatch.Effects.{Uploader, Process}
use uploadfun.Dispatch.Fan.{Delivered}
use uploadfun.Dispatch.Stream.{is_failure, UploadsAll, Delivered-failure}
use uploadfun.Cli.Printer.{Format, output_mode_for, new_printer}
use uploadfun.Cli.Output.{process_events-flag}
use uploadfun.Cli.Flags.{CliOptions, help, misuse, FlagResult, parsed, failed, parse_interleaved}
use uploadfun.Cli.Interleaved.{parse_interleaved-total}
use uploadfun.Cli.Files.{Disk, expand_paths}
use uploadfun.Cli.Collisions.{expand_paths-ok}
use uploadfun.Cli.Main.{
  Build, Parsed, proceed, check_options, check_parsed, parse_args, Outcome, Engine, run_upload,
  run_options, run_parsed, run, exit_ok, exit_partial_failure,
}

abbrev pub options_of : CliOptions → Options
options_of o = record { no_verify = o.no_verify; dry_run = o.dry_run }

module _ {C : Type 0} (format : Format C) (build : Build) (disk : Disk) (engine : Engine)
    (clock : C) where
  run_options-at_most :
      (o : CliOptions) → (run_options format build disk engine clock o).exit_code ≤ 3
  unfolding run_options run_upload
  run_options-at_most o = ground arith

  check_options-at_most :
      (o : CliOptions) (paths : List String)
      → (run_parsed format build disk engine clock (check_options build o paths)).exit_code ≤ 3
  unfolding run_parsed check_options
  check_options-at_most o paths = ground (arith, run_options-at_most (record o { paths = paths }))

  check_parsed-at_most :
      (r : FlagResult (CliOptions × List String))
      → (run_parsed format build disk engine clock (check_parsed build r)).exit_code ≤ 3
  unfolding run_parsed check_parsed
  check_parsed-at_most (failed help) = ground arith
  check_parsed-at_most (failed (misuse text)) = ground arith
  check_parsed-at_most (parsed (o, paths)) = check_options-at_most o paths

  run-parsed :
      (args : List String) (p : Parsed)
      → parse_args build args ≡ some p
      → run format build disk engine clock args ≡ some (run_parsed format build disk engine clock p)
  unfolding run
  run-parsed args p h = ground (arith, h)

  parse_args-checked :
      (args : List String) (r : FlagResult (CliOptions × List String))
      → parse_interleaved args ≡ some r
      → parse_args build args ≡ some (check_parsed build r)
  unfolding parse_args
  parse_args-checked args r h = ground (arith, h)

  -- Every command line has an outcome, with an exit code of at most 3.
  pub run-total :
      (args : List String)
      → (outcome : Outcome C) × (run format build disk engine clock args ≡ some outcome)
        × (outcome.exit_code ≤ 3)
  run-total args =
      let (r, done) = parse_interleaved-total args in
      (
        run_parsed format build disk engine clock (check_parsed build r),
        run-parsed args (check_parsed build r) (parse_args-checked args r done),
        check_parsed-at_most r,
      )

  run_options-uploads :
      (o : CliOptions) (files : List String) (endpoints : List Endpoint)
      → expand_paths disk o.paths ≡ ok files
      → engine.load_config o.config_path ≡ ok endpoints
      → (run_options format build disk engine clock o).exit_code ≡ (
          if any is_failure (engine.upload files endpoints (options_of o))
          then exit_partial_failure
          else exit_ok)
  unfolding run_options run_upload
  run_options-uploads o files endpoints found loaded =
      let p = new_printer (output_mode_for o.quiet o.verbose) o.json clock in
      let flag = process_events-flag format (engine.upload files endpoints (options_of o)) p in
      ground (arith, found, loaded, flag)

  module _ {W : Type 0} (process : Process W) (new_uploader : Protocol → Result (Uploader W)) where
    -- If the command line is accepted with options that ask for a real run, the arguments stand for
    -- some files, the configuration is loaded, and the events are those that the dispatcher
    -- delivers, then the command ends with the exit code 0 or 1, and with 0 exactly if every
    -- endpoint has uploaded all files, in order, which all have different base names.
    pub run-exit_code :
        (args files : List String) (o : CliOptions) (endpoints : List (Endpoint × W))
        → parse_args build args ≡ some (proceed o)
        → o.dry_run ≡ false
        → expand_paths disk o.paths ≡ ok files
        → engine.load_config o.config_path ≡ ok (map (λ (ep, world). ep) endpoints)
        → Delivered process new_uploader
            (options_of o)
            files
            endpoints
            (engine.upload files (map (λ (ep, world). ep) endpoints) (options_of o))
        → (outcome : Outcome C) × (run format build disk engine clock args ≡ some outcome)
          × ((outcome.exit_code ≡ 0) ⊎ (outcome.exit_code ≡ 1))
          × ((outcome.exit_code ≡ 0)
              ↔ All (UploadsAll process new_uploader (options_of o) files) endpoints)
          × Distinct (map base files)
    unfolding run_parsed
    run-exit_code args files o endpoints accepted real found loaded d =
        let eps = map (λ (ep, world). ep) endpoints in
        let code = run_options-uploads o files eps found loaded in
        let failure =
          Delivered-failure process new_uploader (options_of o) files endpoints real d in
        (
          run_options format build disk engine clock o,
          run-parsed args (proceed o) accepted,
          ground (arith, code),
          ground (arith, code, failure),
          ground (arith, expand_paths-ok disk o.paths files, found),
        )
