-- ===== src/Cli/Loaded.antt =====
-- cmd/uploadfun/main.go over config.go and dispatch.go: `run` with the configuration that `LoadConfig`
-- reads.
use uploadfun.Base.{none, ◌≡◌, ◌⊎◌, String, false, List, [], ◌∷◌, All, map, some, arith, Result, ok}
use uploadfun.Upload.{
  Endpoint, Protocol, UploadEvent, Options, protocol_ftp, protocol_ftps, protocol_sftp,
}
use uploadfun.Config.Policy.{Durations}
use uploadfun.Config.Env.{Surroundings}
use uploadfun.Config.Load.{ConfigSource, load_config}
use uploadfun.Config.Valid.{IsValid}
use uploadfun.Config.Accepted.{load_config-IsValid}
use uploadfun.Dispatch.Effects.{Uploader, Process}
use uploadfun.Dispatch.Fan.{Delivered, run_endpoint, run_uploader}
use uploadfun.Dispatch.Stream.{UploadsAll}
use uploadfun.Dispatch.Willing.{IsWilling, run-IsWilling}
use uploadfun.Transports.Adapter.{LocalFiles, Adapted, Dialers, new_real_uploader, around}
use uploadfun.Transports.Obliging.{IsReachable, IsReadable, IsLive, new_real_uploader-IsWilling}
use uploadfun.Cli.Printer.{Format}
use uploadfun.Cli.Flags.{CliOptions}
use uploadfun.Cli.Files.{Disk, expand_paths}
use uploadfun.Cli.Main.{Build, proceed, parse_args, Outcome, Engine, run}
use uploadfun.Cli.Exit.{options_of, run-exit_code}

-- `LoadConfig` and an `Upload`.
abbrev pub engine_with :
    Durations
    → Surroundings
    → ConfigSource
    → (List String → List Endpoint → Options → List UploadEvent)
    → Engine
engine_with durations around source upload = record {
  load_config = load_config durations around source;
  upload = upload;
}

-- There is a transport for each of the three protocols; no connect, delete, upload or verify of it fails
-- where the world was ready, and the context is never cancelled.
abbrev pub IsServed :
    {W : Type 0} → Process W → (Protocol → Result (Uploader W)) → (Ready Live : W → Type 0) → Type 0
IsServed {W = W} process new_uploader Ready Live =
    (protocol : Protocol)
    → (protocol ≡ protocol_ftp) ⊎ ((protocol ≡ protocol_ftps) ⊎ (protocol ≡ protocol_sftp))
    → (up : Uploader W) × (new_uploader protocol ≡ ok up) × IsWilling process up Ready Live

module _ {W : Type 0} (process : Process W) (new_uploader : Protocol → Result (Uploader W))
    (Ready Live : W → Type 0) (served : IsServed process new_uploader Ready Live) (opts : Options)
    (files : List String) (real : opts.dry_run ≡ false) where
  UploadsAll-IsValid :
      (ep : Endpoint) (world : W)
      → IsValid ep
      → Ready world
      → UploadsAll process new_uploader opts files (ep, world)
  unfolding run_endpoint run_uploader
  UploadsAll-IsValid ep world valid ready =
      let (up, made, willing) = served ep.protocol valid.protocol in
      ground (
        arith,
        made,
        real,
        run-IsWilling process up ep opts Ready Live willing files world ready valid.attempts
            valid.max_consecutive_connect_failures,
      )

  All-UploadsAll :
      (endpoints : List (Endpoint × W))
      → All IsValid (map (λ (ep, world). ep) endpoints)
      → All (λ (world : W). Ready world) (map (λ (ep, world). world) endpoints)
      → All (UploadsAll process new_uploader opts files) endpoints
  All-UploadsAll [] valid ready = tt
  All-UploadsAll ((ep, world) ∷ endpoints) (valid, valids) (ready, readies) =
      (UploadsAll-IsValid ep world valid ready, All-UploadsAll endpoints valids readies)

-- A command line that asks for a real upload of some files, to the endpoints of a configuration that
-- `LoadConfig` loads, ends with the exit code 0 if the three protocols are served in the
-- worlds of the endpoints; the events are those that the dispatcher delivers.
pub run-load_config :
    {C W : Type 0} (format : Format C) (build : Build) (disk : Disk) (clock : C)
    (durations : Durations) (around : Surroundings) (source : ConfigSource)
    (upload : List String → List Endpoint → Options → List UploadEvent) (process : Process W)
    (new_uploader : Protocol → Result (Uploader W)) (args files : List String) (o : CliOptions)
    (endpoints : List (Endpoint × W)) (Ready Live : W → Type 0)
    → IsServed process new_uploader Ready Live
    → All (λ (world : W). Ready world) (map (λ (ep, world). world) endpoints)
    → parse_args build args ≡ some (proceed o)
    → o.dry_run ≡ false
    → expand_paths disk o.paths ≡ ok files
    → load_config durations around source o.config_path ≡ ok (map (λ (ep, world). ep) endpoints)
    → Delivered process new_uploader
        (options_of o)
        files
        endpoints
        (upload files (map (λ (ep, world). ep) endpoints) (options_of o))
    → (outcome : Outcome C) × (run format build disk
          (engine_with durations around source upload)
          clock
          args
        ≡ some outcome)
      × (outcome.exit_code ≡ 0)
run-load_config format build disk clock durations around source upload process new_uploader args
      files o endpoints Ready Live served ready accepted real found loaded delivered =
    let engine = engine_with durations around source upload in
    let (count, valid, names) =
      load_config-IsValid durations around source o.config_path (map (λ (ep, world). ep) endpoints)
        loaded in
    let all_uploaded =
      All-UploadsAll process new_uploader Ready Live served (options_of o) files real endpoints
        valid ready in
    let (outcome, done, codes, zero_iff, distinct) =
      run-exit_code format build disk engine clock process new_uploader args files o endpoints
        accepted real found loaded delivered in
    (outcome, done, zero_iff.1 all_uploaded)

All-Unit : {A : Type 0} (xs : List A) → All (λ (x : A). Unit {0}) xs
All-Unit [] = tt
All-Unit (x ∷ xs) = (tt, All-Unit xs)

-- A command line that asks for a real upload of some files, to the endpoints of a configuration that
-- `LoadConfig` loads, over the transports of `newRealUploader`, ends with the exit code 0 if every dial
-- leads to a client none of whose deletes, uploads and verifies fails, every local file can be opened
-- and has a size, and the context is never cancelled; the events are those that the dispatcher
-- delivers.
pub run-new_real_uploader :
    {C W : Type 0} (format : Format C) (build : Build) (disk : Disk) (clock : C)
    (durations : Durations) (surroundings : Surroundings) (source : ConfigSource)
    (upload : List String → List Endpoint → Options → List UploadEvent) (process : Process W)
    (local : LocalFiles W) (dialers : Dialers W) (args files : List String) (o : CliOptions)
    (endpoints : List (Endpoint × Adapted W))
    → ((w : W) → (process.ctx_err w).0 ≡ none)
    → IsReadable local
    → IsReachable dialers.dial_ftp
    → IsReachable dialers.dial_ftps
    → IsReachable dialers.dial_sftp
    → parse_args build args ≡ some (proceed o)
    → o.dry_run ≡ false
    → expand_paths disk o.paths ≡ ok files
    → load_config durations surroundings source o.config_path
      ≡ ok (map (λ (ep, world). ep) endpoints)
    → Delivered
        (around process)
        (new_real_uploader local dialers)
        (options_of o)
        files
        endpoints
        (upload files (map (λ (ep, world). ep) endpoints) (options_of o))
    → (outcome : Outcome C) × (run format build disk
          (engine_with durations surroundings source upload)
          clock
          args
        ≡ some outcome)
      × (outcome.exit_code ≡ 0)
run-new_real_uploader format build disk clock durations surroundings source upload process local
      dialers args files o endpoints context readable ftp ftps sftp accepted real found loaded
      delivered =
    run-load_config format build disk clock durations surroundings source upload (around process)
      (new_real_uploader local dialers) args files o endpoints (λ u. Unit) IsLive
      (new_real_uploader-IsWilling process local context readable dialers ftp ftps sftp)
      (All-Unit (map (λ (ep, world). world) endpoints)) accepted real found loaded delivered
