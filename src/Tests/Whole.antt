-- ===== src/Tests/Whole.antt =====
-- `run` with a configuration that is loaded, and servers that do all that they are asked.
use mathlib.Core.List.{flatten}
use uploadfun.Base.{ℕ, ◌+◌, ◌≡◌, refl, String, List, [], ◌∷◌, false, map, none, some, ok}
use uploadfun.Upload.{Endpoint, Options, UploadEvent}
use uploadfun.Dispatch.Effects.{sent}
use uploadfun.Dispatch.Fan.{run_endpoint}
use uploadfun.Dispatch.Stream.{Shuffles-flatten}
use uploadfun.Transports.Adapter.{
  RemoteClient, LocalFiles, Adapted, Dial, Dialers, new_real_uploader, around,
}
use uploadfun.Transports.Obliging.{IsReachable, IsReadable}
use uploadfun.Cli.Main.{Outcome, run}
use uploadfun.Cli.Exit.{options_of}
use uploadfun.Cli.Loaded.{engine_with, run-new_real_uploader}
use uploadfun.Tests.{files, plain}
use uploadfun.Tests.Command.{
  words, disk, local_build, accepted, parse_args-words, expand_paths-disk,
}
use uploadfun.Tests.Configuration.{durations, source, loaded, load_config-source}
use uploadfun.Tests.Configuration as Configuration
use uploadfun.Tests.Recovery.{calm_process}

abbrev good_client : RemoteClient ℕ
good_client = record {
  close = λ w. (none, w);
  delete = λ remote w. (none, w);
  upload = λ remote file size w. ((size, size) ∷ [], none, w + size);
  verify = λ file remote w. ("size", none, w);
}

abbrev good_files : LocalFiles ℕ
good_files = record {
  open_file = λ file w. (none, w);
  stat_size = λ file w. (ok 10, w);
  close_file = λ file w. w;
}

abbrev good_dial : Dial ℕ
good_dial timeout ep w = (ok good_client, w)

good_dial-IsReachable : IsReachable good_dial
good_dial-IsReachable timeout ep w = (
  good_client,
  refl,
  record {
    delete = λ remote w1. refl;
    upload = λ remote file size w1. refl;
    verify = λ file remote w1. refl;
  },
)

good_files-IsReadable : IsReadable good_files
good_files-IsReadable = record { open_file = λ file w. refl; stat_size = λ file w. (10, refl) }

abbrev good_dialers : Dialers ℕ
good_dialers = record { dial_ftp = good_dial; dial_ftps = good_dial; dial_sftp = good_dial }

abbrev loaded_sites : List (Endpoint × Adapted ℕ)
loaded_sites = (loaded, record { world = 0; client = none; panicked = false }) ∷ []

abbrev site_events : List (List UploadEvent)
site_events =
    map
      (λ (ep, w). sent (
        run_endpoint (around calm_process) (new_real_uploader good_files good_dialers)
          (options_of accepted) files ep w))
      loaded_sites

abbrev upload_sites : List String → List Endpoint → Options → List UploadEvent
upload_sites fs eps opts = flatten site_events

run-new_real_uploader_example :
    (outcome : Outcome ℕ) × (run plain local_build disk
        (engine_with durations Configuration.around source upload_sites)
        0
        words
      ≡ some outcome)
    × (outcome.exit_code ≡ 0)
run-new_real_uploader_example =
    run-new_real_uploader plain local_build disk 0 durations Configuration.around source
      upload_sites calm_process good_files good_dialers words files accepted loaded_sites
      (λ w. refl) good_files-IsReadable good_dial-IsReachable good_dial-IsReachable
      good_dial-IsReachable parse_args-words refl expand_paths-disk load_config-source
      (Shuffles-flatten site_events)
