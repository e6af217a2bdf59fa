-- ===== src/Cli/Written.antt =====
-- cmd/uploadfun/main.go: `parseArgs` on a command line that is written for given options.
use uploadfun.Base.{
  ℕ, zero, suc, ◌≡◌, ◌≤◌, refl, ◌∙◌, String, ◌==◌, Bool, true, false, ◌&&◌, List, [], ◌∷◌, ◌++◌,
  All, length, is_nil, some, arith,
}
use uploadfun.Base.Text.{is_empty}
use uploadfun.Cli.Flags.{
  CliOptions, no_options, parsed, go_on, await_value, parse_one, parse_flags, parse_rounds,
  parse_interleaved, take_word, read_word, after_dash, second_dash, flag_body, split_at_equals,
  flag_kind, set_flag, set_switch,
}
use uploadfun.Cli.Interleaved.{cut_at_mark-append}
use uploadfun.Cli.Main.{Build, proceed, check_parsed, check_options, parse_args}

-- A switch, if it is on, before other words.
abbrev pub switch : Bool → String → List String → List String
switch true word rest = word ∷ rest
switch false word rest = rest

-- The flags of the options, and then the paths behind a mark.
unfoldable pub written_flags : CliOptions → List String
written_flags o = switch o.quiet "--quiet" (
    switch o.verbose "--verbose" (
      switch o.json "--json" (
        switch o.dry_run "--dry-run" (
          switch o.no_verify "--no-verify"
            (switch o.version "--version" ("--config" ∷ o.config_path ∷ []))))))

unfoldable pub written_args : CliOptions → List String
written_args o = written_flags o ++ "--" ∷ o.paths

-- A flag is no mark.
abbrev IsNoMark : String → Type 0
IsNoMark word = (word == "--") ≡ false

switch-IsNoMark :
    (on : Bool) (word : String) (rest : List String)
    → IsNoMark word
    → All IsNoMark rest
    → All IsNoMark (switch on word rest)
switch-IsNoMark true word rest h hs = (h, hs)
switch-IsNoMark false word rest h hs = hs

written_flags-IsNoMark : (o : CliOptions) → IsNoMark o.config_path → All IsNoMark (written_flags o)
unfolding written_flags
written_flags-IsNoMark o h = switch-IsNoMark o.quiet _ _ refl (
    switch-IsNoMark o.verbose _ _ refl (
      switch-IsNoMark o.json _ _ refl (
        switch-IsNoMark o.dry_run _ _ refl (
          switch-IsNoMark o.no_verify _ _ refl
            (switch-IsNoMark o.version _ _ refl (refl, (h, tt)))))))

-- The options of `parseArgs` while the flags are read.
abbrev so_far : (quiet verbose json dry_run no_verify version : Bool) → CliOptions
so_far quiet verbose json dry_run no_verify version = record no_options {
  quiet = quiet;
  verbose = verbose;
  json = json;
  dry_run = dry_run;
  no_verify = no_verify;
  version = version;
}

-- What a switch does to the options.
parse_one-switches :
    (o : CliOptions)
    → (parse_one "--quiet" o ≡ go_on (record o { quiet = true }))
      × (parse_one "--verbose" o ≡ go_on (record o { verbose = true }))
      × (parse_one "--json" o ≡ go_on (record o { json = true }))
      × (parse_one "--dry-run" o ≡ go_on (record o { dry_run = true }))
      × (parse_one "--no-verify" o ≡ go_on (record o { no_verify = true }))
      × (parse_one "--version" o ≡ go_on (record o { version = true }))
      × (parse_one "--config" o ≡ await_value)
unfolding parse_one take_word read_word after_dash second_dash flag_body set_flag flag_kind
    split_at_equals set_switch
parse_one-switches o = (refl, refl, refl, refl, refl, refl, refl)

parse_flags-switch :
    (on : Bool) (word : String) (rest : List String) (set : Bool → CliOptions)
    → parse_one word (set false) ≡ go_on (set true)
    → parse_flags false (switch on word rest) (set false) ≡ parse_flags false rest (set on)
unfolding parse_flags
parse_flags-switch true word rest set h = ground (arith, h)
parse_flags-switch false word rest set h = refl

parse_flags-config :
    (config_path : String) (o : CliOptions)
    → parse_flags false ("--config" ∷ config_path ∷ []) o
      ≡ parsed (record o { config_path = config_path }, [])
unfolding parse_flags
parse_flags-config config_path o = ground (arith, (parse_one-switches o).6)

parse_flags-written :
    (o : CliOptions)
    → parse_flags false (written_flags o) no_options ≡ parsed (record o { paths = [] }, [])
unfolding written_flags
parse_flags-written o =
    let q = o.quiet in
    let v = o.verbose in
    let j = o.json in
    let d = o.dry_run in
    let n = o.no_verify in
    parse_flags-switch q "--quiet" _ (λ b. so_far b false false false false false)
      (parse_one-switches _).0
    ∙ parse_flags-switch v "--verbose" _ (λ b. so_far q b false false false false)
        (parse_one-switches _).1
    ∙ parse_flags-switch j "--json" _ (λ b. so_far q v b false false false) (parse_one-switches _).2
    ∙ parse_flags-switch d "--dry-run" _ (λ b. so_far q v j b false false) (parse_one-switches _).3
    ∙ parse_flags-switch n "--no-verify" _ (λ b. so_far q v j d b false) (parse_one-switches _).4
    ∙ parse_flags-switch o.version "--version" _ (λ b. so_far q v j d n b) (parse_one-switches _).5
    ∙ parse_flags-config o.config_path (so_far q v j d n o.version)

-- Some word is left for each round.
parse_rounds-once :
    (fuel : ℕ) (args : List String) (o o1 : CliOptions)
    → length args ≤ fuel
    → parse_flags false args o ≡ parsed (o1, [])
    → parse_rounds fuel args [] o ≡ some (parsed (o1, []))
unfolding parse_rounds parse_flags
parse_rounds-once fuel [] o o1 enough h = ground (arith, h)
parse_rounds-once zero (word ∷ args) o o1 enough h = absurd (omega arith)
parse_rounds-once (suc fuel) (word ∷ args) o o1 enough h = ground (arith, h)

parse_interleaved-written :
    (o : CliOptions)
    → (o.config_path == "--") ≡ false
    → parse_interleaved (written_args o) ≡ some (parsed (record o { paths = [] }, o.paths))
unfolding parse_interleaved written_args
parse_interleaved-written o not_mark =
    let flags = written_flags o in
    ground (
      arith,
      cut_at_mark-append flags o.paths (written_flags-IsNoMark o not_mark),
      parse_rounds-once (length flags) flags no_options (record o { paths = [] }) (omega arith)
          (parse_flags-written o),
    )

-- A command line that is written for some options, flags first and the paths behind a mark, is parsed
-- to these options, paths included. They do not ask for the version nor for both quiet and verbose,
-- they name a configuration (not by two dashes alone) and at least one path.
pub parse_args-written :
    (build : Build) (o : CliOptions)
    → o.version ≡ false
    → (o.quiet && o.verbose) ≡ false
    → is_empty o.config_path ≡ false
    → (o.config_path == "--") ≡ false
    → is_nil o.paths ≡ false
    → parse_args build (written_args o) ≡ some (proceed o)
unfolding parse_args check_parsed check_options
parse_args-written build o no_version one_mode named not_mark some_path =
    ground (arith, parse_interleaved-written o not_mark)
