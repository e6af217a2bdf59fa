-- ===== src/Tests/Configuration.antt =====
-- config.go at a concrete configuration.
use text.Mathlib.TextEquality.{eq_iff}
use uploadfun.Base.{
  Any, Err, wrap, ◌<>◌, ◌≤◌, ◌≡◌, refl, pos, String, true, inl, inr, arith, ◌==◌, false, List, [],
  ◌∷◌, length, All, Distinct, map, none, some, root, other, ok, fail, if◌then◌else◌,
}
use uploadfun.Upload.{
  Endpoint, default_retry_delay, default_stall_timeout, default_max_consecutive_connect_failures,
}
use uploadfun.Config.Policy.{
  RawPolicy, default_policy, Durations, resolve_count, parse_duration, parse_non_negative_duration,
  parse_positive_duration, resolve_policy,
}
use uploadfun.Config.Env.{
  Surroundings, name_part, starts_with_letter, drop_first, after_char, closed_name, match_variable,
  string_length, replacement, missing_if_unset, replace_variables, interpolate_env, expand_home,
  resolve_private_key_path,
}
use uploadfun.Config.Interpolate.{
  Piece, plain, variable, written, meant, has_no_dollar, has_name_characters,
  interpolate_env-written,
}
use uploadfun.Config.Fields.{
  RawEndpoint, RawConfig, endpoint_label, resolve_field, interpolate_fields, validate_name,
  validate_protocol, error_if, validate_auth, resolve_overwrite,
}
use uploadfun.Config.Load.{
  ConfigSource, join_all, private_key_of, build_endpoint, build_all, build_config, load_config,
}
use uploadfun.Config.Valid.{IsValid}
use uploadfun.Config.Accepted.{load_config-IsValid}
use uploadfun.Config.Literal.{IsLiteral, raw_of}
use uploadfun.Config.Complete.{load_config-raw_of}
use uploadfun.Cli.Throttle.{eq_ℤ}
use uploadfun.Base.Text.{is_empty}
use uploadfun.Config.Layers.{resolve_policy-layers, resolve_policy-cascade}

abbrev pub durations : Durations
durations = record {
  parse = λ text. if text == "5s" then ok (pos 5_000_000_000) else fail (root other "bad duration");
  show = λ d. "0s";
}

abbrev pub around : Surroundings
around = record {
  lookup_env = λ name. if name == "PASS" then some "secret" else none;
  home_dir = ok "/home/u";
}

abbrev no_policy : RawPolicy
no_policy = record {
  attempts = none;
  retry_delay = none;
  connect_timeout = none;
  stall_timeout = none;
  max_consecutive_connect_failures = none;
}

abbrev five_seconds : RawPolicy
five_seconds = record no_policy { attempts = some (pos 7); connect_timeout = some "5s" }

abbrev raw_site : RawEndpoint
raw_site = record {
  name = "site";
  protocol = "ftp";
  host = "ftp.example";
  port = pos 0;
  username = "u";
  password = "x${PASS}";
  private_key = "";
  overwrite = "";
  insecure_skip_verify = false;
  policy = record no_policy { attempts = some (pos 2) };
}

abbrev pub raw_config : RawConfig
raw_config = record { endpoints = raw_site ∷ []; policy = five_seconds }

abbrev pub source : ConfigSource
source = record { read_file = λ path. ok "yaml"; unmarshal = λ text. ok raw_config }

abbrev pub loaded : Endpoint
loaded = record {
  name = "site";
  protocol = "ftp";
  host = "ftp.example";
  port = pos 0;
  username = "u";
  password = "xsecret";
  private_key = "";
  overwrite = "delete-first";
  insecure_skip_verify = false;
  attempts = pos 2;
  retry_delay = default_retry_delay;
  connect_timeout = pos 5_000_000_000;
  stall_timeout = default_stall_timeout;
  max_consecutive_connect_failures = default_max_consecutive_connect_failures;
}

pub load_config-source : load_config durations around source "c.yml" ≡ ok (loaded ∷ [])
unfolding load_config build_config build_all build_endpoint private_key_of join_all endpoint_label
    resolve_field interpolate_fields validate_name validate_protocol error_if validate_auth
    resolve_overwrite name_part starts_with_letter drop_first after_char closed_name match_variable
    string_length replacement missing_if_unset replace_variables interpolate_env expand_home
    resolve_private_key_path resolve_count parse_duration parse_non_negative_duration
    parse_positive_duration resolve_policy
load_config-source = refl

load_config-IsValid_example :
    (1 ≤ length (loaded ∷ []))
    × All IsValid (loaded ∷ [])
    × Distinct (map (λ (ep : Endpoint). ep.name) (loaded ∷ []))
load_config-IsValid_example =
    load_config-IsValid durations around source "c.yml" (loaded ∷ []) load_config-source

resolve_policy-layers_example :
    let p =
      (resolve_policy durations raw_site.policy
        (resolve_policy durations five_seconds default_policy "").0
        "site: ").0 in
    (p.attempts ≡ pos 2)
    × (p.max_consecutive_connect_failures ≡ default_max_consecutive_connect_failures)
    × (p.retry_delay ≡ default_retry_delay)
    × (ok (pos 5_000_000_000) ≡ ok p.connect_timeout)
    × (p.stall_timeout ≡ default_stall_timeout)
unfolding resolve_count parse_duration parse_non_negative_duration parse_positive_duration
    resolve_policy
resolve_policy-layers_example =
    resolve_policy-layers durations five_seconds raw_site.policy "site: " refl refl

abbrev unreadable : RawPolicy
unreadable = record no_policy { connect_timeout = some "soon" }

resolve_policy-cascade_example :
    Any
      (λ (x : Err).
        x
        ≡ wrap
            (("site: " <> "connect_timeout") <> ": ")
            (root other ("must be positive, got " <> durations.show (pos 0))))
      (resolve_policy durations no_policy
        (resolve_policy durations unreadable default_policy "").0
        "site: ").1
resolve_policy-cascade_example =
    resolve_policy-cascade durations unreadable no_policy "site: " "soon" refl
      (inl (root other "bad duration", refl)) refl

-- The text `a${PASS}b}`.
abbrev pieces : List Piece
pieces = plain "a" ∷ variable "PASS" "secret" ∷ plain "b}" ∷ []

interpolate_env-written_example : interpolate_env around "a${PASS}b}" ≡ ("asecretb}", none)
unfolding written meant has_no_dollar has_name_characters starts_with_letter
interpolate_env-written_example =
    interpolate_env-written around pieces (refl, ((refl, refl, refl), (refl, tt)))

-- Two durations, as they are printed and read.
abbrev readable : Durations
readable = record {
  parse = λ text.
      if text == "5s"
      then ok (pos 5_000_000_000)
      else if text == "0s"
      then ok (pos 0)
      else fail (root other "bad duration");
  show = λ d. if eq_ℤ d (pos 0) then "0s" else "5s";
}

abbrev full_site : String → Endpoint
full_site name = record loaded {
  name = name;
  protocol = "ftps";
  insecure_skip_verify = true;
  retry_delay = pos 0;
  stall_timeout = pos 0;
}

full_site-IsValid : (name : String) → is_empty name ≡ false → IsValid (full_site name)
full_site-IsValid name named = record {
  name = named;
  protocol = inr (inl refl);
  host = refl;
  port = (refl, omega arith);
  username = refl;
  password = inl refl;
  private_key = inl refl;
  insecure = λ h. refl;
  overwrite = inl refl;
  attempts = omega arith;
  retry_delay = refl;
  connect_timeout = omega arith;
  stall_timeout = refl;
  max_consecutive_connect_failures = omega arith;
}

full_site-IsLiteral :
    (name : String) → has_no_dollar name ≡ true → IsLiteral readable (full_site name)
unfolding has_no_dollar
full_site-IsLiteral name h = record {
  name = h;
  host = refl;
  username = refl;
  password = refl;
  private_key = refl;
  key_path = refl;
  credential = refl;
  retry_delay = refl;
  connect_timeout = refl;
  stall_timeout = refl;
}

abbrev full_sites : List Endpoint
full_sites = full_site "a" ∷ full_site "b" ∷ []

abbrev full_source : ConfigSource
full_source = record {
  read_file = λ path. ok "yaml";
  unmarshal =
      λ text. ok (record { endpoints = map (raw_of readable) full_sites; policy = no_policy });
}

load_config-raw_of_example : load_config readable around full_source "c.yml" ≡ ok full_sites
unfolding has_no_dollar resolve_policy resolve_count parse_duration parse_non_negative_duration
    parse_positive_duration
load_config-raw_of_example =
    load_config-raw_of readable around full_source "c.yml" "yaml" no_policy full_sites refl refl
      refl refl (full_site-IsValid "a" refl, (full_site-IsValid "b" refl, tt))
      (full_site-IsLiteral "a" refl, (full_site-IsLiteral "b" refl, tt))
      ((ground (arith, eq_iff "a" "b"), tt), (tt, tt))
