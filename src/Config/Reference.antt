-- ===== src/Config/Reference.antt =====
-- config.go: the conditions on a configuration, each apart from the error that it leads to.
use uploadfun.Base.{
  ◌≡◌, refl, ℤ, pos, negsuc, leb_ℤ, String, ◌==◌, Bool, true, false, not, ◌&&◌, ◌||◌, List, [], ◌∷◌,
  ◌++◌, is_nil, any, Option, none, some, is_some, Result, ok, fail, arith, if◌then◌else◌,
}
use uploadfun.Base.Text.{is_empty}
use uploadfun.Upload.{
  protocol_ftp, protocol_ftps, protocol_sftp, overwrite_delete_first, overwrite_direct,
}
use uploadfun.Config.Policy.{
  RawPolicy, RetryPolicy, Durations, resolve_count, parse_duration, parse_non_negative_duration,
  parse_positive_duration, errors_of, resolve_policy,
}
use uploadfun.Config.Ranges.{IsUsable}
use uploadfun.Config.Env.{Surroundings, interpolate_env, resolve_private_key_path}
use uploadfun.Config.Fields.{
  RawEndpoint, ResolvedFields, resolve_field, interpolate_fields, validate_name, validate_protocol,
  error_if, validate_auth, resolve_overwrite,
}
use uploadfun.Config.Load.{private_key_of}

abbrev pub succeeds : {A : Type 0} → Result A → Bool
succeeds (ok a) = true
succeeds (fail e) = false

abbrev pub count_fits : Option ℤ → Bool
count_fits none = true
count_fits (some n) = leb_ℤ (pos 1) n

abbrev pub is_duration : ℤ → Result ℤ → Bool
is_duration least (ok d) = leb_ℤ least d
is_duration least (fail e) = false

abbrev pub time_fits : Durations → ℤ → Option String → Bool
time_fits durations least none = true
time_fits durations least (some text) = is_duration least (durations.parse text)

abbrev pub policy_fits : Durations → RawPolicy → Bool
policy_fits durations raw =
    count_fits raw.attempts
    && (count_fits raw.max_consecutive_connect_failures
        && (time_fits durations (pos 0) raw.retry_delay
            && (time_fits durations (pos 1) raw.connect_timeout
                && time_fits durations (pos 0) raw.stall_timeout)))

abbrev pub is_known : String → Bool
is_known protocol =
    protocol == protocol_ftp || protocol == protocol_ftps || protocol == protocol_sftp

abbrev pub auth_fits : (protocol password private_key : String) → Bool
auth_fits protocol password private_key =
    if protocol == protocol_ftp || protocol == protocol_ftps
    then is_empty private_key && not (is_empty password)
    else not (protocol == protocol_sftp) || not (is_empty password) || not (is_empty private_key)

abbrev pub mode_fits : String → Bool
mode_fits raw = is_empty raw || raw == overwrite_delete_first || raw == overwrite_direct

pub nil_and :
    {A : Type 0} {a b : Bool} (xs ys : List A)
    → is_nil xs ≡ a
    → is_nil ys ≡ b
    → is_nil (xs ++ ys) ≡ (a && b)
nil_and [] ys h k = ground (arith, h, k)
nil_and (x ∷ xs) ys h k = ground (arith, h, k)

resolve_count-count_fits :
    (raw : Option ℤ) (base : ℤ) (label : String)
    → is_nil (resolve_count raw base label).1 ≡ count_fits raw
unfolding resolve_count
resolve_count-count_fits none base label = refl
resolve_count-count_fits (some (pos n)) base label = ground arith
resolve_count-count_fits (some (negsuc n)) base label = ground arith

module _ (durations : Durations) where
  parse_non_negative_duration-time_fits :
      (raw : Option String) (base : ℤ) (label : String)
      → leb_ℤ (pos 0) base ≡ true
      → is_nil (errors_of label (parse_non_negative_duration durations raw base).1)
        ≡ time_fits durations (pos 0) raw
  unfolding parse_non_negative_duration parse_duration
  parse_non_negative_duration-time_fits none base label h = ground arith
  parse_non_negative_duration-time_fits (some text) base label h = ground arith

  parse_positive_duration-time_fits :
      (raw : Option String) (base : ℤ) (label : String)
      → leb_ℤ (pos 1) base ≡ true
      → is_nil (errors_of label (parse_positive_duration durations raw base).1)
        ≡ time_fits durations (pos 1) raw
  unfolding parse_positive_duration parse_duration
  parse_positive_duration-time_fits none base label h = ground arith
  parse_positive_duration-time_fits (some text) base label h = ground arith

  pub resolve_policy-policy_fits :
      (raw : RawPolicy) (base : RetryPolicy) (prefix : String)
      → IsUsable base
      → is_nil (resolve_policy durations raw base prefix).1 ≡ policy_fits durations raw
  unfolding resolve_policy
  resolve_policy-policy_fits raw base prefix h =
      nil_and _ _ (resolve_count-count_fits raw.attempts base.attempts _) (
        nil_and _ _
          (resolve_count-count_fits raw.max_consecutive_connect_failures
            base.max_consecutive_connect_failures _)
          (nil_and _ _
            (parse_non_negative_duration-time_fits raw.retry_delay base.retry_delay _
              (ground (arith, h.retry_delay)))
            (nil_and _ _
              (parse_positive_duration-time_fits raw.connect_timeout base.connect_timeout _
                (ground (arith, h.connect_timeout)))
              (parse_non_negative_duration-time_fits raw.stall_timeout base.stall_timeout _
                (ground (arith, h.stall_timeout))))))

pub error_if-not : (b : Bool) (text : String) → is_nil (error_if b text) ≡ not b
unfolding error_if
error_if-not true text = refl
error_if-not false text = refl

pub validate_name-fits :
    (label name : String) (seen : List String)
    → is_nil (validate_name label name seen).0
      ≡ (not (is_empty name) && not (any (λ (n : String). n == name) seen))
unfolding validate_name
validate_name-fits label name seen = ground arith

pub validate_protocol-fits :
    (label protocol : String) → is_nil (validate_protocol label protocol).1 ≡ is_known protocol
unfolding validate_protocol
validate_protocol-fits label protocol = ground arith

pub validate_auth-fits :
    (label protocol password private_key : String)
    → is_nil (validate_auth label protocol password private_key)
      ≡ auth_fits protocol password private_key
unfolding validate_auth error_if
validate_auth-fits label protocol password private_key = ground arith

pub resolve_overwrite-fits :
    (label raw : String) → is_nil (resolve_overwrite label raw).1 ≡ mode_fits raw
unfolding resolve_overwrite
resolve_overwrite-fits label raw = ground arith

module _ (around : Surroundings) where
  abbrev pub text_of : String → String
  text_of value = (interpolate_env around value).0

  abbrev pub is_defined : String → Bool
  is_defined value = not (is_some (interpolate_env around value).1)

  abbrev pub texts_of : RawEndpoint → ResolvedFields
  texts_of re = record {
    name = text_of re.name;
    host = text_of re.host;
    username = text_of re.username;
    password = text_of re.password;
    private_key = text_of re.private_key;
    overwrite_raw = text_of re.overwrite;
  }

  abbrev pub all_defined : RawEndpoint → Bool
  all_defined re =
      is_defined re.name
      && (is_defined re.host
          && (is_defined re.username
              && (is_defined re.password
                  && (is_defined re.private_key && is_defined re.overwrite))))

  resolve_field-text_of :
      (label field value : String) → (resolve_field around label field value).0 ≡ text_of value
  unfolding resolve_field
  resolve_field-text_of label field value = ground arith

  resolve_field-is_defined :
      (label field value : String)
      → is_nil (resolve_field around label field value).1 ≡ is_defined value
  unfolding resolve_field
  resolve_field-is_defined label field value = ground arith

  pub interpolate_fields-texts_of :
      (re : RawEndpoint) (label : String) → (interpolate_fields around re label).0 ≡ texts_of re
  unfolding interpolate_fields
  interpolate_fields-texts_of re label =
      rw
        (
          resolve_field-text_of label "name" re.name,
          resolve_field-text_of label "host" re.host,
          resolve_field-text_of label "username" re.username,
          resolve_field-text_of label "password" re.password,
          resolve_field-text_of label "private_key" re.private_key,
          resolve_field-text_of label "overwrite" re.overwrite,
        )
        refl

  pub interpolate_fields-all_defined :
      (re : RawEndpoint) (label : String)
      → is_nil (interpolate_fields around re label).1 ≡ all_defined re
  unfolding interpolate_fields
  interpolate_fields-all_defined re label =
      nil_and _ _ (resolve_field-is_defined label "name" re.name) (
        nil_and _ _ (resolve_field-is_defined label "host" re.host) (
          nil_and _ _ (resolve_field-is_defined label "username" re.username) (
            nil_and _ _ (resolve_field-is_defined label "password" re.password) (
              nil_and _ _ (resolve_field-is_defined label "private_key" re.private_key)
                (resolve_field-is_defined label "overwrite" re.overwrite)))))

  pub private_key_of-succeeds :
      (label private_key : String)
      → is_nil (private_key_of around label private_key).1
        ≡ succeeds (resolve_private_key_path around private_key)
  unfolding private_key_of
  private_key_of-succeeds label private_key = ground arith
