-- ===== src/Cli/Flags.antt =====
-- cmd/uploadfun/main.go: `parseArgs` and `parseInterleaved`, over a model of what `flag.FlagSet`
-- does with the flags that are defined there.
use Prim.Native.Char.{code}
use uploadfun.Base.{
  ℕ, zero, suc, String, ◌<>◌, ◌==◌, Bool, true, false, ◌||◌, List, [], ◌∷◌, ◌++◌, length, Option,
  none, some, nat_eq, starts_with, if◌then◌else◌,
}
use uploadfun.Base.Text.{is_empty, quote}

pub record CliOptions : Type 0 where
  pub config_path : String
  pub quiet : Bool
  pub verbose : Bool
  pub json : Bool
  pub dry_run : Bool
  pub no_verify : Bool
  pub version : Bool
  pub paths : List String

abbrev pub no_options : CliOptions
no_options = record {
  config_path = "";
  quiet = false;
  verbose = false;
  json = false;
  dry_run = false;
  no_verify = false;
  version = false;
  paths = [];
}

-- Why `fs.Parse` stops with an error: `flag.ErrHelp`, or a message.
pub data FlagError : Type 0 where
  help : FlagError
  misuse : String → FlagError

pub data FlagResult {ℓ} (A : Type ℓ) : Type ℓ where
  parsed : A → FlagResult A
  failed : FlagError → FlagResult A

-- A flag that takes a value, or one that is a switch.
pub data FlagKind : Type 0 where
  value_flag : FlagKind
  bool_flag : (Bool → CliOptions → CliOptions) → FlagKind
  unknown_flag : FlagKind

-- The flags that `parseArgs` defines.
unfoldable pub flag_kind : String → FlagKind
flag_kind name =
    if name == "config"
    then value_flag
    else if name == "quiet"
    then bool_flag (λ b o. record o { quiet = b })
    else if name == "verbose"
    then bool_flag (λ b o. record o { verbose = b })
    else if name == "json"
    then bool_flag (λ b o. record o { json = b })
    else if name == "dry-run"
    then bool_flag (λ b o. record o { dry_run = b })
    else if name == "no-verify"
    then bool_flag (λ b o. record o { no_verify = b })
    else if name == "version"
    then bool_flag (λ b o. record o { version = b })
    else unknown_flag

-- `strconv.ParseBool`
unfoldable pub parse_bool : String → Option Bool
parse_bool s =
    if s == "1" || s == "t" || s == "T" || s == "TRUE" || s == "true" || s == "True"
    then some true
    else if s == "0" || s == "f" || s == "F" || s == "FALSE" || s == "false" || s == "False"
    then some false
    else none

-- What is behind a dash at the front.
unfoldable pub after_dash : String → Option String
after_dash String.[] = none
after_dash (String.◌∷◌ c s) = if nat_eq (code c) b'-' then some s else none

-- A word split at its first `=`.
unfoldable pub split_at_equals : String → String × Option String
split_at_equals String.[] = ("", none)
split_at_equals (String.◌∷◌ c s) =
    let (name, value) = split_at_equals s in
    if nat_eq (code c) b'=' then ("", some s) else (String.◌∷◌ c name, value)

-- How `parseOne` reads one word: as the first positional, as the mark that ends the flags, as a flag
-- with its name and value, or as none of these.
pub data Word : Type 0 where
  positional : Word
  end_mark : Word
  flag_word : (name : String) (value : Option String) → Word
  bad_syntax : Word

unfoldable pub flag_body : String → Word
flag_body body =
    if is_empty body || starts_with body "-" || starts_with body "="
    then bad_syntax
    else (let (name, value) = split_at_equals body in flag_word name value)

unfoldable pub second_dash : String → Word
second_dash rest = elim (after_dash rest) [
  | none ↦ if is_empty rest then positional else flag_body rest
  | some body ↦ if is_empty body then end_mark else flag_body body
]

unfoldable pub read_word : String → Word
read_word word = elim (after_dash word) [ none ↦ positional | some rest ↦ second_dash rest ]

-- What a word does to the flags before it (`parseOne`): the parse stops at the word or behind it, is
-- given up, waits for the value of `-config`, or goes on with new options.
pub data FlagStep : Type 0 where
  stop_at : FlagStep
  stop_behind : FlagStep
  reject : FlagError → FlagStep
  await_value : FlagStep
  go_on : CliOptions → FlagStep

-- A switch is set from its value, where it has one.
unfoldable pub set_switch :
    String → (Bool → CliOptions → CliOptions) → Option String → CliOptions → FlagStep
set_switch name set none o = go_on (set true o)
set_switch name set (some value) o = elim (parse_bool value) [
  | some b ↦ go_on (set b o)
  | none ↦
      reject
        (misuse ("invalid boolean value " <> quote value <> " for -" <> name <> ": parse error"))
]

unfoldable pub unknown_error : String → FlagError
unknown_error name =
    if name == "help" || name == "h"
    then help
    else misuse ("flag provided but not defined: -" <> name)

unfoldable pub set_flag : FlagKind → String → Option String → CliOptions → FlagStep
set_flag unknown_flag name value o = reject (unknown_error name)
set_flag value_flag name none o = await_value
set_flag value_flag name (some v) o = go_on (record o { config_path = v })
set_flag (bool_flag set) name value o = set_switch name set value o

unfoldable pub take_word : Word → String → CliOptions → FlagStep
take_word positional word o = stop_at
take_word end_mark word o = stop_behind
take_word bad_syntax word o = reject (misuse ("bad flag syntax: " <> word))
take_word (flag_word name value) word o = set_flag (flag_kind name) name value o

unfoldable pub parse_one : String → CliOptions → FlagStep
parse_one word o = take_word (read_word word) word o

-- `fs.Parse`: the options, and `fs.Args()`. The flag says that `-config` waits for its value.
unfoldable pub parse_flags : Bool → List String → CliOptions → FlagResult (CliOptions × List String)
parse_flags true [] o = failed (misuse "flag needs an argument: -config")
parse_flags true (value ∷ args) o = parse_flags false args (record o { config_path = value })
parse_flags false [] o = parsed (o, [])
parse_flags false (word ∷ args) o = elim (parse_one word o) [
  | stop_at ↦ parsed (o, word ∷ args)
  | stop_behind ↦ parsed (o, args)
  | reject e ↦ failed e
  | await_value ↦ parse_flags true args o
  | go_on o1 ↦ parse_flags false args o1
]

-- The loop of `parseInterleaved`; the fuel is a bound on its rounds, and each takes a word away.
unfoldable pub parse_rounds :
    ℕ → List String → List String → CliOptions → Option (FlagResult (CliOptions × List String))
parse_rounds fuel [] positionals o = some (parsed (o, positionals))
parse_rounds zero (word ∷ args) positionals o = none
parse_rounds (suc fuel) (word ∷ args) positionals o = elim (parse_flags false (word ∷ args) o) [
  | failed e ↦ some (failed e)
  | parsed (o1, []) ↦ some (parsed (o1, positionals))
  | parsed (o1, first ∷ rest) ↦ parse_rounds fuel rest (positionals ++ (first ∷ [])) o1
]

-- `slices.Index(args, "--")`, with what is before it and behind it.
unfoldable pub cut_at_mark : List String → List String × List String
cut_at_mark [] = ([], [])
cut_at_mark (word ∷ args) =
    let (before, after) = cut_at_mark args in
    if word == "--" then ([], args) else (word ∷ before, after)

abbrev pub add_trailing :
    List String → FlagResult (CliOptions × List String) → FlagResult (CliOptions × List String)
add_trailing trailing (failed e) = failed e
add_trailing trailing (parsed (o, positionals)) = parsed (o, positionals ++ trailing)

unfoldable pub parse_interleaved : List String → Option (FlagResult (CliOptions × List String))
parse_interleaved args =
    let (before, trailing) = cut_at_mark args in
    elim (parse_rounds (length before) before [] no_options) [
      | none ↦ none
      | some r ↦ some (add_trailing trailing r)
    ]
