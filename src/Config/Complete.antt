-- ===== src/Config/Complete.antt =====
-- config.go: `LoadConfig` on a configuration that is written for given endpoints.
use text.Mathlib.TextEquality.{eq_iff}
use uploadfun.Base.{
  ℕ, ◌+◌, ◌≤◌, ◌≡◌, ◌≢◌, refl, ℤ, pos, negsuc, pos_part, neg_part, String, ◌<>◌, ◌==◌, Bool, false,
  List, [], ◌∷◌, is_nil, any, map, All, Distinct, none, some, arith, ok,
}
use uploadfun.Upload.{Endpoint}
use uploadfun.Config.Policy.{
  RawPolicy, RetryPolicy, Durations, default_policy, resolve_count, parse_duration,
  parse_non_negative_duration, parse_positive_duration, resolve_policy,
}
use uploadfun.Config.Env.{Surroundings}
use uploadfun.Config.Fields.{endpoint_label, error_if}
use uploadfun.Config.Load.{
  ConfigSource, join_all, build_endpoint, build_all, build_config, load_config,
}
use uploadfun.Config.Valid.{IsValid}
use uploadfun.Config.Accepted.{names, AllNew}
use uploadfun.Config.Literal.{
  IsLiteral, raw_policy_of, raw_of, interpolate_fields-raw_of, private_key_of-literal,
  validate_name-new, validate_protocol-known, port-in_range, insecure-allowed,
  validate_auth-literal, resolve_overwrite-known,
}

abbrev policy_of : Endpoint → RetryPolicy
policy_of ep = record {
  attempts = ep.attempts;
  retry_delay = ep.retry_delay;
  connect_timeout = ep.connect_timeout;
  stall_timeout = ep.stall_timeout;
  max_consecutive_connect_failures = ep.max_consecutive_connect_failures;
}

resolve_count-positive :
    (n base : ℤ) (label : String) → 1 ≤ pos_part n → resolve_count (some n) base label ≡ (n, [])
unfolding resolve_count
resolve_count-positive (pos n) base label h = ground arith
resolve_count-positive (negsuc n) base label h = absurd (omega arith)

error_if-false : (b : Bool) (text : String) → b ≡ false → error_if b text ≡ []
unfolding error_if
error_if-false b text h = rw h refl

pub AllNew-grow :
    (name : String) (seen ns : List String)
    → AllNew seen ns
    → All (λ (n : String). name ≢ n) ns
    → AllNew (name ∷ seen) ns
AllNew-grow name seen [] new others = tt
AllNew-grow name seen (n ∷ ns) (new, news) (other_name, others) =
    ground (arith, new, eq_iff name n, other_name, AllNew-grow name seen ns news others)

pub AllNew-nil : (ns : List String) → AllNew [] ns
AllNew-nil [] = tt
AllNew-nil (n ∷ ns) = (refl, AllNew-nil ns)

module _ (durations : Durations) where
  parse_non_negative_duration-shown :
      (d base : ℤ)
      → durations.parse (durations.show d) ≡ ok d
      → neg_part d ≡ 0
      → parse_non_negative_duration durations (some (durations.show d)) base ≡ (d, none)
  unfolding parse_non_negative_duration parse_duration
  parse_non_negative_duration-shown (pos n) base readable h = ground (arith, readable)
  parse_non_negative_duration-shown (negsuc n) base readable h = absurd (omega arith)

  parse_positive_duration-shown :
      (d base : ℤ)
      → durations.parse (durations.show d) ≡ ok d
      → 1 ≤ pos_part d
      → parse_positive_duration durations (some (durations.show d)) base ≡ (d, none)
  unfolding parse_positive_duration parse_duration
  parse_positive_duration-shown (pos n) base readable h = ground (arith, readable)
  parse_positive_duration-shown (negsuc n) base readable h = absurd (omega arith)

  resolve_policy-raw_policy_of :
      (ep : Endpoint) (g : RetryPolicy) (prefix : String)
      → IsValid ep
      → IsLiteral durations ep
      → resolve_policy durations (raw_policy_of durations ep) g prefix ≡ (policy_of ep, [])
  unfolding resolve_policy raw_policy_of
  resolve_policy-raw_policy_of ep g prefix valid literal =
      rw
        (
          resolve_count-positive ep.attempts g.attempts (prefix <> "attempts") valid.attempts,
          resolve_count-positive ep.max_consecutive_connect_failures
              g.max_consecutive_connect_failures (prefix <> "max_consecutive_connect_failures")
              valid.max_consecutive_connect_failures,
          parse_non_negative_duration-shown ep.retry_delay g.retry_delay literal.retry_delay
              valid.retry_delay,
          parse_positive_duration-shown ep.connect_timeout g.connect_timeout literal.connect_timeout
              valid.connect_timeout,
          parse_non_negative_duration-shown ep.stall_timeout g.stall_timeout literal.stall_timeout
              valid.stall_timeout,
        )
        refl

  module _ (around : Surroundings) where
    build_endpoint-raw_of :
        (ep : Endpoint) (index : ℕ) (g : RetryPolicy) (seen : List String)
        → IsValid ep
        → IsLiteral durations ep
        → any (λ (n : String). n == ep.name) seen ≡ false
        → build_endpoint durations around (raw_of durations ep) index g seen
          ≡ (ep, [], ep.name ∷ seen)
    unfolding build_endpoint raw_of
    build_endpoint-raw_of ep index g seen valid literal new =
        let label = endpoint_label index ep.name in
        rw
          (
            interpolate_fields-raw_of around durations ep label valid literal,
            validate_name-new label ep.name seen valid.name new,
            validate_protocol-known label ep.protocol valid.protocol,
            error_if-false _ _ valid.host,
            error_if-false _ _ (port-in_range ep.port valid.port),
            error_if-false _ _ valid.username,
            validate_auth-literal label ep.protocol ep.password ep.private_key valid.password
                valid.private_key literal.credential,
            error_if-false _ _
                (insecure-allowed ep.insecure_skip_verify ep.protocol valid.insecure),
            resolve_overwrite-known label ep.overwrite valid.overwrite,
            private_key_of-literal around label ep.private_key literal.key_path,
            resolve_policy-raw_policy_of ep g (label <> ": ") valid literal,
          )
          refl

    build_all-raw_of :
        (eps : List Endpoint) (index : ℕ) (g : RetryPolicy) (seen : List String)
        → All IsValid eps
        → All (IsLiteral durations) eps
        → AllNew seen (names eps)
        → Distinct (names eps)
        → build_all durations around (map (raw_of durations) eps) index g seen ≡ (eps, [])
    unfolding build_all
    build_all-raw_of [] index g seen valid literal new distinct = refl
    build_all-raw_of (ep ∷ eps) index g seen (valid, valids) (literal, literals) (new, news)
          (other_names, distinct) =
        rw
          (
            build_endpoint-raw_of ep index g seen valid literal new,
            build_all-raw_of eps (index + 1) g (ep.name ∷ seen) valids literals
                (AllNew-grow ep.name seen (names eps) news other_names) distinct,
          )
          refl

    build_config-raw_of :
        (policy : RawPolicy) (eps : List Endpoint)
        → (resolve_policy durations policy default_policy "").1 ≡ []
        → is_nil eps ≡ false
        → All IsValid eps
        → All (IsLiteral durations) eps
        → Distinct (names eps)
        → build_config durations around
            (record { endpoints = map (raw_of durations) eps; policy = policy })
          ≡ ok eps
    unfolding build_config join_all error_if
    build_config-raw_of policy [] no_error some_ep valid literal distinct = absurd cc
    build_config-raw_of policy (ep ∷ eps) no_error some_ep valid literal distinct =
        let g = (resolve_policy durations policy default_policy "").0 in
        ground (
          arith,
          no_error,
          build_all-raw_of (ep ∷ eps) 0 g [] valid literal (AllNew-nil (names (ep ∷ eps))) distinct,
        )

    -- Every configuration that is written for endpoints is loaded as these endpoints: there is at least
    -- one, all are valid, and their names are distinct; no text in them has a `$`, no key's path
    -- begins with the home directory's `~`, each has a password or a key, and their durations are
    -- read as they are printed. The text is decoded to what was written, with a policy on top that
    -- has no error.
    pub load_config-raw_of :
        (source : ConfigSource) (path text : String) (policy : RawPolicy) (eps : List Endpoint)
        → source.read_file path ≡ ok text
        → source.unmarshal text
          ≡ ok (record { endpoints = map (raw_of durations) eps; policy = policy })
        → (resolve_policy durations policy default_policy "").1 ≡ []
        → is_nil eps ≡ false
        → All IsValid eps
        → All (IsLiteral durations) eps
        → Distinct (names eps)
        → load_config durations around source path ≡ ok eps
    unfolding load_config
    load_config-raw_of source path text policy eps read decoded no_error some_ep valid literal
          distinct =
        ground (
          arith,
          read,
          decoded,
          build_config-raw_of policy eps no_error some_ep valid literal distinct,
        )
