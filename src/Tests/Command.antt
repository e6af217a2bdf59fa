-- ===== src/Tests/Command.antt =====
-- cmd/uploadfun/main.go at concrete command lines and disks.
use mathlib.Core.List.{flatten}
use uploadfun.Base.{
  ℕ, ◌≤◌, ◌≡◌, refl, ◌↔◌, ◌⊎◌, String, ◌==◌, true, false, List, [], ◌∷◌, ◌++◌, All, Distinct, map,
  none, some, root, other, ok, fail, if◌then◌else◌,
}
use uploadfun.Base.Text.{base, clean, join_path}
use uploadfun.Upload.{Endpoint, UploadEvent}
use uploadfun.Dispatch.Effects.{sent}
use uploadfun.Dispatch.Fan.{run_endpoint}
use uploadfun.Dispatch.Stream.{UploadsAll, Shuffles-flatten}
use uploadfun.Cli.Flags.{
  CliOptions, no_options, FlagError, FlagResult, parsed, failed, parse_interleaved, parse_rounds,
  cut_at_mark, parse_flags, parse_one, take_word, read_word, after_dash, second_dash, flag_body,
  set_flag, flag_kind, split_at_equals, set_switch,
}
use uploadfun.Cli.Interleaved.{parse_interleaved-total, parse_interleaved-mark}
use uploadfun.Cli.Files.{
  FileInfo, Disk, check_basename_collisions, expand_paths, expand_all, expand_path, expand_entries,
  check_from, find_seen,
}
use uploadfun.Cli.Collisions.{check_basename_collisions-none}
use uploadfun.Cli.Expanded.{IsExpanded, expand_paths-IsExpanded}
use uploadfun.Cli.Main.{
  Build, proceed, parse_args, check_parsed, check_options, Outcome, Engine, run,
}
use uploadfun.Cli.Written.{written_flags, written_args, parse_args-written}
use uploadfun.Cli.Exit.{options_of, run-total, run-exit_code}
use uploadfun.Tests.{Answers, site, options, files, plain, steady, new_uploader, flaky}

abbrev pub words : List String
words = "a" ∷ "--config" ∷ "c.yml" ∷ "--quiet" ∷ []

parse_interleaved-total_example :
    (r : FlagResult (CliOptions × List String)) × (parse_interleaved words ≡ some r)
parse_interleaved-total_example = parse_interleaved-total words

parse_interleaved-mark_example :
    ((e : FlagError) × (parse_interleaved words ≡ some (failed e))
      × (parse_interleaved (words ++ "--" ∷ "-weird.jpg" ∷ []) ≡ some (failed e)))
    ⊎ ((o : CliOptions) × (paths : List String) × (parse_interleaved words
          ≡ some (parsed (o, paths)))
        × (parse_interleaved (words ++ "--" ∷ "-weird.jpg" ∷ [])
            ≡ some (parsed (o, paths ++ "-weird.jpg" ∷ []))))
parse_interleaved-mark_example =
    parse_interleaved-mark words ("-weird.jpg" ∷ []) (refl, (refl, (refl, (refl, tt))))

abbrev plain_file : FileInfo
plain_file = record { is_dir = false; is_regular = true; perm = 0o644; mode_text = "-rw-r--r--" }

abbrev folder : FileInfo
folder = record { is_dir = true; is_regular = false; perm = 0o755; mode_text = "-rwxr-xr-x" }

-- A directory `a` with two pictures, a hidden file and a directory, and the configuration.
abbrev pub disk : Disk
disk = record {
  stat = λ path.
      if path == "a"
      then ok folder
      else if path == "c.yml"
      then ok plain_file
      else fail (root other "no such file");
  read_dir = λ path. ok (
      (record { name = ".hidden"; is_dir = false; info = ok plain_file })
      ∷ (record { name = "1.jpg"; is_dir = false; info = ok plain_file })
      ∷ (record { name = "2.jpg"; is_dir = false; info = ok plain_file })
      ∷ (record { name = "old"; is_dir = true; info = ok folder })
      ∷ []);
}

check_basename_collisions-none_example :
    (check_basename_collisions files ≡ none) ↔ Distinct (map base files)
check_basename_collisions-none_example = check_basename_collisions-none files

expand_paths-IsExpanded_example : IsExpanded disk ("a" ∷ []) (expand_paths disk ("a" ∷ []))
expand_paths-IsExpanded_example = expand_paths-IsExpanded disk ("a" ∷ [])

abbrev pub local_build : Build
local_build = record { version = "dev"; module_version = some "v0.1.0" }

-- One endpoint, whose first connect and first upload fail.
abbrev one_site : List (Endpoint × Answers)
one_site = (site, flaky) ∷ []

abbrev engine : Engine
engine = record {
  load_config = λ path. ok (map (λ (ep, world). ep) one_site);
  upload = λ fs eps opts.
      flatten (map (λ (ep, w). sent (run_endpoint steady new_uploader opts fs ep w)) one_site);
}

run-total_example :
    (outcome : Outcome ℕ) × (run plain local_build disk engine 0 words ≡ some outcome)
    × (outcome.exit_code ≤ 3)
run-total_example = run-total plain local_build disk engine 0 words

abbrev pub accepted : CliOptions
accepted = record no_options { config_path = "c.yml"; quiet = true; paths = "a" ∷ [] }

pub parse_args-words : parse_args local_build words ≡ some (proceed accepted)
unfolding parse_args parse_interleaved parse_rounds cut_at_mark parse_flags parse_one take_word
    read_word after_dash second_dash flag_body set_flag flag_kind split_at_equals set_switch
    check_parsed check_options
parse_args-words = refl

pub expand_paths-disk : expand_paths disk ("a" ∷ []) ≡ ok files
unfolding expand_paths expand_all expand_path expand_entries check_basename_collisions check_from
    find_seen base clean join_path
expand_paths-disk = refl

abbrev streams : List (List UploadEvent)
streams = map (λ (ep, w). sent (run_endpoint steady new_uploader options files ep w)) one_site

run-exit_code_example :
    (outcome : Outcome ℕ) × (run plain local_build disk engine 0 words ≡ some outcome)
    × ((outcome.exit_code ≡ 0) ⊎ (outcome.exit_code ≡ 1))
    × ((outcome.exit_code ≡ 0)
        ↔ All (UploadsAll steady new_uploader (options_of accepted) files) one_site)
    × Distinct (map base files)
run-exit_code_example =
    run-exit_code plain local_build disk engine 0 steady new_uploader words files accepted one_site
      parse_args-words refl expand_paths-disk refl (Shuffles-flatten streams)

-- The options as they are written: `--quiet --config c.yml -- a`.
parse_args-written_example :
    parse_args local_build ("--quiet" ∷ "--config" ∷ "c.yml" ∷ "--" ∷ "a" ∷ [])
    ≡ some (proceed accepted)
unfolding written_flags written_args
parse_args-written_example = parse_args-written local_build accepted refl refl refl refl refl
