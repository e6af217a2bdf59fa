-- ===== src/Config/Valid.antt =====
-- config.go: what `LoadConfig` lets through.
use text.Mathlib.TextEquality.{eq_iff}
use uploadfun.Base.{
  ℕ, ◌≤◌, ◌≡◌, refl, ◌⊎◌, inl, inr, ℤ, ltb_ℤ, ◌&&◌, pos, negsuc, pos_part, neg_part, String, ◌<>◌,
  ◌==◌, Bool, true, false, not, ◌||◌, List, [], ◌∷◌, any, arith,
}
use uploadfun.Base.Text.{is_empty}
use uploadfun.Upload.{
  Endpoint, protocol_ftp, protocol_ftps, protocol_sftp, overwrite_delete_first, overwrite_direct,
}
use uploadfun.Config.Policy.{RetryPolicy, Durations}
use uploadfun.Config.Ranges.{IsUsable, append-nil_parts, resolve_policy-IsUsable}
use uploadfun.Config.Env.{Surroundings, resolve_private_key_path}
use uploadfun.Config.Fields.{
  RawEndpoint, endpoint_label, interpolate_fields, validate_name, validate_protocol, error_if,
  validate_auth, resolve_overwrite,
}
use uploadfun.Config.Load.{private_key_of, build_endpoint}

-- What the engine and the transports can rely on.
pub record IsValid (ep : Endpoint) : Type 0 where
  pub name : is_empty ep.name ≡ false
  pub protocol :
      (ep.protocol ≡ protocol_ftp) ⊎ ((ep.protocol ≡ protocol_ftps) ⊎ (ep.protocol ≡ protocol_sftp))
  pub host : is_empty ep.host ≡ false
  pub port : (neg_part ep.port ≡ 0) × (pos_part ep.port ≤ 65_535)
  pub username : is_empty ep.username ≡ false
  pub password : (is_empty ep.password ≡ false) ⊎ (ep.protocol ≡ protocol_sftp)
  pub private_key : (ep.private_key ≡ "") ⊎ (ep.protocol ≡ protocol_sftp)
  pub insecure : ep.insecure_skip_verify ≡ true → ep.protocol ≡ protocol_ftps
  pub overwrite : (ep.overwrite ≡ overwrite_delete_first) ⊎ (ep.overwrite ≡ overwrite_direct)
  pub attempts : 1 ≤ pos_part ep.attempts
  pub retry_delay : neg_part ep.retry_delay ≡ 0
  pub connect_timeout : 1 ≤ pos_part ep.connect_timeout
  pub stall_timeout : neg_part ep.stall_timeout ≡ 0
  pub max_consecutive_connect_failures : 1 ≤ pos_part ep.max_consecutive_connect_failures

pub error_if-nil : (b : Bool) (text : String) → error_if b text ≡ [] → b ≡ false
unfolding error_if
error_if-nil true text h = absurd cc
error_if-nil false text h = refl

validate_protocol-nil :
    (label protocol : String)
    → (validate_protocol label protocol).1 ≡ []
    → (protocol ≡ protocol_ftp) ⊎ ((protocol ≡ protocol_ftps) ⊎ (protocol ≡ protocol_sftp))
unfolding validate_protocol
validate_protocol-nil label protocol h = ground (
  arith,
  eq_iff protocol protocol_ftp,
  eq_iff protocol protocol_ftps,
  eq_iff protocol protocol_sftp,
)

port-range :
    (port : ℤ)
    → (ltb_ℤ port (pos 0) || ltb_ℤ (pos 65_535) port) ≡ false
    → (neg_part port ≡ 0) × (pos_part port ≤ 65_535)
port-range (pos n) h = ground arith
port-range (negsuc n) h = ground arith

insecure-protocol :
    (insecure : Bool) (protocol : String)
    → (insecure && not (protocol == protocol_ftps)) ≡ false
    → insecure ≡ true
    → protocol ≡ protocol_ftps
insecure-protocol insecure protocol h asked = ground (arith, eq_iff protocol protocol_ftps)

is_empty-nil : (s : String) → is_empty s ≡ true → s ≡ ""
is_empty-nil String.[] h = refl
is_empty-nil (String.◌∷◌ c s) h = absurd cc

private_key_of-empty :
    (around : Surroundings) (label key : String)
    → is_empty key ≡ true
    → (private_key_of around label key).0 ≡ ""
unfolding private_key_of resolve_private_key_path
private_key_of-empty around label key h = ground (arith, h)

validate_auth-nil :
    (label protocol password key : String)
    → validate_auth label protocol password key ≡ []
    → (protocol ≡ protocol_ftp) ⊎ ((protocol ≡ protocol_ftps) ⊎ (protocol ≡ protocol_sftp))
    → ((is_empty password ≡ false) ⊎ (protocol ≡ protocol_sftp))
      × ((is_empty key ≡ true) ⊎ (protocol ≡ protocol_sftp))
unfolding validate_auth error_if
validate_auth-nil label protocol password key h known =
    ground (arith, eq_iff protocol protocol_ftp, eq_iff protocol protocol_ftps)

resolve_overwrite-nil :
    (label raw : String)
    → let (mode, errs) = resolve_overwrite label raw in
      errs ≡ [] → (mode ≡ overwrite_delete_first) ⊎ (mode ≡ overwrite_direct)
unfolding resolve_overwrite
resolve_overwrite-nil label raw h =
    ground (arith, eq_iff raw overwrite_delete_first, eq_iff raw overwrite_direct)

validate_name-nil :
    (label name : String) (seen : List String)
    → let (errs, seen1) = validate_name label name seen in
      errs ≡ []
      → (is_empty name ≡ false)
        × (any (λ (n : String). n == name) seen ≡ false)
        × (seen1 ≡ name ∷ seen)
unfolding validate_name
validate_name-nil label name seen h = ground arith

module _ (durations : Durations) (around : Surroundings) where
  pub build_endpoint-IsValid :
      (re : RawEndpoint) (index : ℕ) (g : RetryPolicy) (seen : List String)
      → IsUsable g
      → let (ep, errs, seen1) = build_endpoint durations around re index g seen in
        errs ≡ []
        → IsValid ep × (any (λ (n : String). n == ep.name) seen ≡ false) × (seen1 ≡ ep.name ∷ seen)
  unfolding build_endpoint validate_protocol
  build_endpoint-IsValid re index g seen usable e =
      let label = endpoint_label index re.name in
      let f = (interpolate_fields around re label).0 in
      let (_, r1) = append-nil_parts _ _ e in
      let (name_ok, r2) = append-nil_parts _ _ r1 in
      let (protocol_ok, r3) = append-nil_parts _ _ r2 in
      let (host_ok, r4) = append-nil_parts _ _ r3 in
      let (port_ok, r5) = append-nil_parts _ _ r4 in
      let (username_ok, r6) = append-nil_parts _ _ r5 in
      let (auth_ok, r7) = append-nil_parts _ _ r6 in
      let (insecure_ok, r8) = append-nil_parts _ _ r7 in
      let (overwrite_ok, r9) = append-nil_parts _ _ r8 in
      let (key_ok, policy_ok) = append-nil_parts _ _ r9 in
      let (named, unseen, seen_ok) = validate_name-nil label f.name seen name_ok in
      let known = validate_protocol-nil label re.protocol protocol_ok in
      let (password_ok, key_empty) =
        validate_auth-nil label re.protocol f.password f.private_key auth_ok known in
      let in_range : (ltb_ℤ re.port (pos 0) || ltb_ℤ (pos 65_535) re.port) ≡ false =
        error_if-nil _ _ port_ok in
      let tls_only : (re.insecure_skip_verify && not (re.protocol == protocol_ftps)) ≡ false =
        error_if-nil _ _ insecure_ok in
      let no_key : ((private_key_of around label f.private_key).0 ≡ "")
          ⊎ (re.protocol ≡ protocol_sftp) =
        elim key_empty [
          | inl empty ↦ inl (private_key_of-empty around label f.private_key empty)
          | inr is_sftp ↦ inr is_sftp
        ] in
      let policy = resolve_policy-IsUsable durations re.policy g (label <> ": ") usable policy_ok in
      (
        record {
          name = named;
          protocol = known;
          host = error_if-nil _ _ host_ok;
          port = port-range re.port in_range;
          username = error_if-nil _ _ username_ok;
          password = password_ok;
          private_key = no_key;
          insecure = insecure-protocol re.insecure_skip_verify re.protocol tls_only;
          overwrite = resolve_overwrite-nil label f.overwrite_raw overwrite_ok;
          attempts = policy.attempts;
          retry_delay = policy.retry_delay;
          connect_timeout = policy.connect_timeout;
          stall_timeout = policy.stall_timeout;
          max_consecutive_connect_failures = policy.max_consecutive_connect_failures;
        },
        unseen,
        seen_ok,
      )
