-- ===== src/Config/Load.antt =====
-- config.go: `buildEndpoint` and `LoadConfig`.
use uploadfun.Base.{
  ℕ, ◌+◌, pos, ltb_ℤ, String, ◌<>◌, ◌==◌, not, ◌&&◌, ◌||◌, List, [], ◌∷◌, ◌++◌, is_nil, Option,
  none, some, Err, wrap, join, Result, ok, fail,
}
use uploadfun.Base.Text.{is_empty, quote, show_ℤ}
use uploadfun.Upload.{Endpoint, protocol_ftps}
use uploadfun.Config.Policy.{Durations, RetryPolicy, default_policy, resolve_policy}
use uploadfun.Config.Env.{Surroundings, resolve_private_key_path}
use uploadfun.Config.Fields.{
  RawEndpoint, RawConfig, endpoint_label, interpolate_fields, validate_name, validate_protocol,
  error_if, validate_auth, resolve_overwrite,
}

-- `os.ReadFile`, and `yaml.Unmarshal` into a `rawConfig`.
pub record ConfigSource : Type 0 where
  pub read_file : String → Result String
  pub unmarshal : String → Result RawConfig

-- `errors.Join`, where there is an error.
unfoldable pub join_all : List Err → Option Err
join_all [] = none
join_all (e ∷ []) = some e
join_all (e ∷ f ∷ errs) = elim (join_all (f ∷ errs)) [
  | none ↦ some e
  | some more ↦ some (join e more)
]

-- The private key's path, with the error.
unfoldable pub private_key_of : Surroundings → String → String → String × List Err
private_key_of around label private_key = elim (resolve_private_key_path around private_key) [
  | ok path ↦ (path, [])
  | fail e ↦ ("", wrap (label <> ": private_key: ") e ∷ [])
]

module _ (durations : Durations) (around : Surroundings) where
  unfoldable pub build_endpoint :
      RawEndpoint → ℕ → RetryPolicy → List String → Endpoint × List Err × List String
  build_endpoint re index g seen =
      let label = endpoint_label index re.name in
      let (f, field_errs) = interpolate_fields around re label in
      let (name_errs, seen1) = validate_name label f.name seen in
      let (protocol, protocol_errs) = validate_protocol label re.protocol in
      let host_errs = error_if (is_empty f.host) (label <> ": host is required") in
      let port_errs =
        error_if (ltb_ℤ re.port (pos 0) || ltb_ℤ (pos 65_535) re.port)
          (label <> ": port: must be between 0 and 65535, got " <> show_ℤ re.port) in
      let username_errs = error_if (is_empty f.username) (label <> ": username is required") in
      let auth_errs = validate_auth label protocol f.password f.private_key in
      let insecure_errs = error_if (re.insecure_skip_verify && not (protocol == protocol_ftps)) (
        label <> ": insecure_skip_verify is only supported for protocol " <> quote protocol_ftps) in
      let (overwrite, overwrite_errs) = resolve_overwrite label f.overwrite_raw in
      let (private_key, key_errs) = private_key_of around label f.private_key in
      let (policy, policy_errs) = resolve_policy durations re.policy g (label <> ": ") in
      (
        record {
          name = f.name;
          protocol = protocol;
          host = f.host;
          port = re.port;
          username = f.username;
          password = f.password;
          private_key = private_key;
          overwrite = overwrite;
          insecure_skip_verify = re.insecure_skip_verify;
          attempts = policy.attempts;
          retry_delay = policy.retry_delay;
          connect_timeout = policy.connect_timeout;
          stall_timeout = policy.stall_timeout;
          max_consecutive_connect_failures = policy.max_consecutive_connect_failures;
        },
        field_errs
            ++ (name_errs
                ++ (protocol_errs
                    ++ (host_errs
                        ++ (port_errs
                            ++ (username_errs
                                ++ (auth_errs
                                    ++ (insecure_errs
                                        ++ (overwrite_errs ++ (key_errs ++ policy_errs))))))))),
        seen1,
      )

  -- The loop of `LoadConfig` over the endpoints.
  unfoldable pub build_all :
      List RawEndpoint → ℕ → RetryPolicy → List String → List Endpoint × List Err
  build_all [] index g seen = ([], [])
  build_all (re ∷ raws) index g seen =
      let (ep, errs, seen1) = build_endpoint re index g seen in
      let (eps, more) = build_all raws (index + 1) g seen1 in (ep ∷ eps, errs ++ more)

  -- `LoadConfig` behind the decoding.
  unfoldable pub build_config : RawConfig → Result (List Endpoint)
  build_config raw =
      let (globals, global_errs) = resolve_policy durations raw.policy default_policy "" in
      let none_errs =
        error_if (is_nil raw.endpoints) "endpoints: at least one endpoint is required" in
      let (eps, endpoint_errs) = build_all raw.endpoints 0 globals [] in
      elim (join_all (global_errs ++ (none_errs ++ endpoint_errs))) [
        | none ↦ ok eps
        | some e ↦ fail e
      ]

  unfoldable pub load_config : ConfigSource → String → Result (List Endpoint)
  load_config source path = elim (source.read_file path) [
    | fail e ↦ fail (wrap "reading config: " e)
    | ok text ↦ elim (source.unmarshal text) [
      | fail e ↦ fail (wrap "parsing config: " e)
      | ok raw ↦ build_config raw
    ]
  ]
