-- ===== src/Config/Literal.antt =====
-- config.go: the checks of an endpoint that is written out in full, with no variable in it.
use text.Mathlib.TextEquality.{eq_iff}
use text.Mathlib.TextLemmas.{append-nil}
use uploadfun.Base.{
  ◌≤◌, ◌≡◌, refl, ap, ◌⊎◌, inl, inr, ℤ, ltb_ℤ, ◌&&◌, pos, negsuc, pos_part, neg_part, String, ◌==◌,
  Bool, true, false, not, ◌||◌, List, [], ◌∷◌, any, arith, starts_with, some, ok,
}
use uploadfun.Base.Text.{is_empty}
use uploadfun.Upload.{
  Endpoint, protocol_ftp, protocol_ftps, protocol_sftp, overwrite_delete_first, overwrite_direct,
}
use uploadfun.Config.Policy.{RawPolicy, Durations}
use uploadfun.Config.Env.{Surroundings, resolve_private_key_path, expand_home}
use uploadfun.Config.Interpolate.{plain, written, meant, has_no_dollar, interpolate_env-written}
use uploadfun.Config.Fields.{
  RawEndpoint, resolve_field, interpolate_fields, validate_name, validate_protocol, error_if,
  validate_auth, resolve_overwrite,
}
use uploadfun.Config.Load.{private_key_of}
use uploadfun.Config.Valid.{IsValid}

-- What the text of an endpoint's fields has to be for them to be written as they are.
pub record IsLiteral (durations : Durations) (ep : Endpoint) : Type 0 where
  pub name : has_no_dollar ep.name ≡ true
  pub host : has_no_dollar ep.host ≡ true
  pub username : has_no_dollar ep.username ≡ true
  pub password : has_no_dollar ep.password ≡ true
  pub private_key : has_no_dollar ep.private_key ≡ true
  pub key_path : (ep.private_key == "~" || starts_with ep.private_key "~/") ≡ false
  pub credential : (is_empty ep.password && is_empty ep.private_key) ≡ false
  pub retry_delay : durations.parse (durations.show ep.retry_delay) ≡ ok ep.retry_delay
  pub connect_timeout : durations.parse (durations.show ep.connect_timeout) ≡ ok ep.connect_timeout
  pub stall_timeout : durations.parse (durations.show ep.stall_timeout) ≡ ok ep.stall_timeout

-- An endpoint as it is written in the configuration.
unfoldable pub raw_policy_of : Durations → Endpoint → RawPolicy
raw_policy_of durations ep = record {
  attempts = some ep.attempts;
  retry_delay = some (durations.show ep.retry_delay);
  connect_timeout = some (durations.show ep.connect_timeout);
  stall_timeout = some (durations.show ep.stall_timeout);
  max_consecutive_connect_failures = some ep.max_consecutive_connect_failures;
}

unfoldable pub raw_of : Durations → Endpoint → RawEndpoint
raw_of durations ep = record {
  name = ep.name;
  protocol = ep.protocol;
  host = ep.host;
  port = ep.port;
  username = ep.username;
  password = ep.password;
  private_key = ep.private_key;
  overwrite = ep.overwrite;
  insecure_skip_verify = ep.insecure_skip_verify;
  policy = raw_policy_of durations ep;
}

overwrite_no_dollar :
    (mode : String)
    → (mode ≡ overwrite_delete_first) ⊎ (mode ≡ overwrite_direct)
    → has_no_dollar mode ≡ true
unfolding has_no_dollar
overwrite_no_dollar mode (inl h) = rw h refl
overwrite_no_dollar mode (inr h) = rw h refl

module _ (around : Surroundings) where
  resolve_field-plain :
      (label field value : String)
      → has_no_dollar value ≡ true
      → resolve_field around label field value ≡ (value, [])
  unfolding resolve_field written meant
  resolve_field-plain label field value h =
      let read = interpolate_env-written around (plain value ∷ []) (h, tt) in
      ground (arith, read, append-nil value)

  pub interpolate_fields-raw_of :
      (durations : Durations) (ep : Endpoint) (label : String)
      → IsValid ep
      → IsLiteral durations ep
      → interpolate_fields around (raw_of durations ep) label ≡ (
        record {
          name = ep.name;
          host = ep.host;
          username = ep.username;
          password = ep.password;
          private_key = ep.private_key;
          overwrite_raw = ep.overwrite;
        },
        [],
      )
  unfolding interpolate_fields raw_of
  interpolate_fields-raw_of durations ep label valid literal =
      rw
        (
          resolve_field-plain label "name" ep.name literal.name,
          resolve_field-plain label "host" ep.host literal.host,
          resolve_field-plain label "username" ep.username literal.username,
          resolve_field-plain label "password" ep.password literal.password,
          resolve_field-plain label "private_key" ep.private_key literal.private_key,
          resolve_field-plain label "overwrite" ep.overwrite
              (overwrite_no_dollar ep.overwrite valid.overwrite),
        )
        refl

  pub private_key_of-literal :
      (label key : String)
      → (key == "~" || starts_with key "~/") ≡ false
      → private_key_of around label key ≡ (key, [])
  unfolding private_key_of resolve_private_key_path expand_home
  private_key_of-literal label key h = ground arith

pub validate_name-new :
    (label name : String) (seen : List String)
    → is_empty name ≡ false
    → any (λ (n : String). n == name) seen ≡ false
    → validate_name label name seen ≡ ([], name ∷ seen)
unfolding validate_name
validate_name-new label name seen h new = ground (arith, h, new)

pub validate_protocol-known :
    (label protocol : String)
    → (protocol ≡ protocol_ftp) ⊎ ((protocol ≡ protocol_ftps) ⊎ (protocol ≡ protocol_sftp))
    → validate_protocol label protocol ≡ (protocol, [])
unfolding validate_protocol
validate_protocol-known label protocol h = ground (
  arith,
  eq_iff protocol protocol_ftp,
  eq_iff protocol protocol_ftps,
  eq_iff protocol protocol_sftp,
)

pub port-in_range :
    (port : ℤ)
    → (neg_part port ≡ 0) × (pos_part port ≤ 65_535)
    → (ltb_ℤ port (pos 0) || ltb_ℤ (pos 65_535) port) ≡ false
port-in_range (pos n) h = ground arith
port-in_range (negsuc n) h = ground arith

pub insecure-allowed :
    (insecure : Bool) (protocol : String)
    → (insecure ≡ true → protocol ≡ protocol_ftps)
    → (insecure && not (protocol == protocol_ftps)) ≡ false
insecure-allowed insecure protocol h = ground (arith, eq_iff protocol protocol_ftps)

pub validate_auth-literal :
    (label protocol password key : String)
    → (is_empty password ≡ false) ⊎ (protocol ≡ protocol_sftp)
    → (key ≡ "") ⊎ (protocol ≡ protocol_sftp)
    → (is_empty password && is_empty key) ≡ false
    → validate_auth label protocol password key ≡ []
unfolding validate_auth error_if
validate_auth-literal label protocol password key some_password (inl no_key) credential = ground (
  arith,
  ap is_empty no_key,
  eq_iff protocol protocol_ftp,
  eq_iff protocol protocol_ftps,
  eq_iff protocol protocol_sftp,
)
validate_auth-literal label protocol password key some_password (inr is_sftp) credential =
    rw is_sftp (ground (arith, credential))

pub resolve_overwrite-known :
    (label mode : String)
    → (mode ≡ overwrite_delete_first) ⊎ (mode ≡ overwrite_direct)
    → resolve_overwrite label mode ≡ (mode, [])
unfolding resolve_overwrite
resolve_overwrite-known label mode (inl h) = rw h refl
resolve_overwrite-known label mode (inr h) = rw h refl
