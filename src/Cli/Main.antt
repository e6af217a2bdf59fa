-- ===== src/Cli/Main.antt =====
-- cmd/uploadfun/main.go: `resolveVersion`, `parseArgs`, `warnIfConfigReadable` and `run`.
use Prim.Native.Char.{code}
use Prim.Native.Nat.{bit_and}
use uploadfun.Base.{
  ℕ, String, ◌<>◌, ◌==◌, not, ◌&&◌, List, [], ◌∷◌, ◌++◌, is_nil, nat_eq, Option, none, some, Result,
  ok, fail, message, if◌then◌else◌,
}
use uploadfun.Base.Text.{is_empty}
use uploadfun.Upload.{Endpoint, Options, UploadEvent}
use uploadfun.Cli.Printer.{Printer, Format, output_mode_for, new_printer, process_events}
use uploadfun.Cli.Flags.{CliOptions, help, misuse, FlagResult, parsed, failed, parse_interleaved}
use uploadfun.Cli.Files.{Disk, expand_paths}

abbrev pub exit_ok : ℕ
exit_ok = 0

abbrev pub exit_partial_failure : ℕ
exit_partial_failure = 1

abbrev pub exit_config_error : ℕ
exit_config_error = 2

abbrev pub exit_usage_error : ℕ
exit_usage_error = 3

-- The variable `version`, and the module version of `debug.ReadBuildInfo` where there is one.
pub record Build : Type 0 where
  pub version : String
  pub module_version : Option String

unfoldable pub raw_version : Build → String
raw_version build =
    if not (build.version == "dev") then build.version else elim build.module_version [
      | none ↦ build.version
      | some v ↦ if not (v == "") && not (v == "(devel)") then v else build.version
    ]

unfoldable pub trim_v : String → String
trim_v String.[] = ""
trim_v (String.◌∷◌ c s) = if nat_eq (code c) b'v' then s else String.◌∷◌ c s

unfoldable pub resolve_version : Build → String
resolve_version build = trim_v (raw_version build)

-- A line on an output, or the text of `fs.Usage`.
pub data Shown : Type 0 where
  line : String → Shown
  usage : Shown

-- What `parseArgs` returns: an exit code with what was shown, or the options.
pub data Parsed : Type 0 where
  stopped : (exit_code : ℕ) (out err : List Shown) → Parsed
  proceed : CliOptions → Parsed

abbrev pub usage_error : String → Parsed
usage_error text = stopped exit_usage_error [] (line text ∷ usage ∷ [])

unfoldable pub check_options : Build → CliOptions → List String → Parsed
check_options build o paths =
    if o.version
    then stopped exit_ok (line ("uploadfun " <> resolve_version build) ∷ []) []
    else if o.quiet && o.verbose
    then usage_error "uploadfun: --quiet and --verbose are mutually exclusive"
    else if is_empty o.config_path
    then usage_error "uploadfun: --config is required"
    else if is_nil paths
    then usage_error "uploadfun: at least one file or directory argument is required"
    else proceed (record o { paths = paths })

unfoldable pub check_parsed : Build → FlagResult (CliOptions × List String) → Parsed
check_parsed build (failed help) = stopped exit_ok [] (usage ∷ [])
check_parsed build (failed (misuse text)) = stopped exit_usage_error [] (line text ∷ usage ∷ [])
check_parsed build (parsed (o, paths)) = check_options build o paths

-- `none` would mean that the loop of `parseInterleaved` has not ended.
unfoldable pub parse_args : Build → List String → Option Parsed
parse_args build args = elim (parse_interleaved args) [
  | none ↦ none
  | some r ↦ some (check_parsed build r)
]

unfoldable pub warn_if_config_readable : Disk → String → List Shown
warn_if_config_readable disk path = elim (disk.stat path) [
  | fail e ↦ []
  | ok info ↦
      if nat_eq (bit_and info.perm 0o44) 0
      then []
      else line (
          "uploadfun: warning: " <> path <> " is readable by group/other (mode " <> info.mode_text
          <> "); it may contain plaintext credentials, consider chmod 600")
        ∷ []
]

-- What `run` leaves: the exit code, what it showed itself, and the printer if the upload ran.
pub record Outcome (C : Type 0) : Type 0 where
  pub exit_code : ℕ
  pub out : List Shown
  pub err : List Shown
  pub printer : Option (Printer C)

abbrev pub refuse : {C : Type 0} → ℕ → List Shown → Outcome C
refuse exit_code err = record { exit_code = exit_code; out = []; err = err; printer = none }

-- The parts of the program that `run` calls: `LoadConfig`, and `Upload` with the events that it
-- delivers.
pub record Engine : Type 0 where
  pub load_config : String → Result (List Endpoint)
  pub upload : List String → List Endpoint → Options → List UploadEvent

module _ {C : Type 0} (format : Format C) (build : Build) (disk : Disk) (engine : Engine)
    (clock : C) where
  -- The end of `run`, after the configuration is loaded.
  unfoldable pub run_upload : CliOptions → List String → List Endpoint → List Shown → Outcome C
  run_upload o files endpoints warnings =
      let options : Options = record { no_verify = o.no_verify; dry_run = o.dry_run } in
      let p = new_printer (output_mode_for o.quiet o.verbose) o.json clock in
      let (p1, any_failed) = process_events format (engine.upload files endpoints options) p in
      record {
        exit_code = if any_failed then exit_partial_failure else exit_ok;
        out = [];
        err = warnings;
        printer = some p1;
      }

  unfoldable pub run_options : CliOptions → Outcome C
  run_options o = elim (expand_paths disk o.paths) [
    | fail e ↦ refuse exit_usage_error (line ("uploadfun: " <> message e) ∷ [])
    | ok files ↦
        let warnings = warn_if_config_readable disk o.config_path in
        elim (engine.load_config o.config_path) [
          | fail e ↦
              refuse exit_config_error
                (warnings ++ (line "uploadfun: config error:" ∷ line (message e) ∷ []))
          | ok endpoints ↦ run_upload o files endpoints warnings
        ]
  ]

  unfoldable pub run_parsed : Parsed → Outcome C
  run_parsed (stopped exit_code out err) = record {
    exit_code = exit_code;
    out = out;
    err = err;
    printer = none;
  }
  run_parsed (proceed o) = run_options o

  unfoldable pub run : List String → Option (Outcome C)
  run args = elim (parse_args build args) [ none ↦ none | some r ↦ some (run_parsed r) ]
