-- ===== src/Config/Judged.antt =====
-- config.go: which endpoints `buildEndpoint` takes.
use uploadfun.Base.{
  ℕ, ◌≡◌, refl, pos, ltb_ℤ, leb_ℤ, ℤ, negsuc, String, ◌<>◌, ◌==◌, Bool, true, false, not, ◌&&◌,
  ◌||◌, List, ◌∷◌, is_nil, any, arith,
}
use uploadfun.Base.Text.{is_empty}
use uploadfun.Upload.{protocol_ftps}
use uploadfun.Config.Policy.{Durations, RetryPolicy}
use uploadfun.Config.Env.{Surroundings, resolve_private_key_path}
use uploadfun.Config.Fields.{RawEndpoint, endpoint_label, validate_name, validate_protocol}
use uploadfun.Config.Load.{build_endpoint}
use uploadfun.Config.Ranges.{IsUsable}
use uploadfun.Config.Reference.{
  succeeds, policy_fits, is_known, auth_fits, mode_fits, nil_and, resolve_policy-policy_fits,
  error_if-not, validate_name-fits, validate_protocol-fits, validate_auth-fits,
  resolve_overwrite-fits, text_of, texts_of, all_defined, interpolate_fields-texts_of,
  interpolate_fields-all_defined, private_key_of-succeeds,
}

port-fits :
    (port : ℤ)
    → not (ltb_ℤ port (pos 0) || ltb_ℤ (pos 65_535) port)
      ≡ (leb_ℤ (pos 0) port && leb_ℤ port (pos 65_535))
port-fits (pos n) = ground arith
port-fits (negsuc n) = ground arith

and_last : (a b c d : Bool) → (a && ((b && d) && c)) ≡ ((a && (b && c)) && d)
and_last true true c d = ground arith
and_last true false c d = refl
and_last false b c d = refl

module _ (durations : Durations) (around : Surroundings) where
  -- The conditions on the protocol, the host and what follows them.
  abbrev others_fit : RawEndpoint → Bool
  others_fit re =
      let f = texts_of around re in
      is_known re.protocol
      && (not (is_empty f.host)
          && ((leb_ℤ (pos 0) re.port && leb_ℤ re.port (pos 65_535))
              && (not (is_empty f.username)
                  && (auth_fits re.protocol f.password f.private_key
                      && (not (re.insecure_skip_verify && not (re.protocol == protocol_ftps))
                          && (mode_fits f.overwrite_raw
                              && (succeeds (resolve_private_key_path around f.private_key)
                                  && policy_fits durations re.policy)))))))

  -- The conditions on an endpoint by itself.
  unfoldable pub endpoint_fits : RawEndpoint → Bool
  endpoint_fits re =
      all_defined around re && (not (is_empty (text_of around re.name)) && others_fit re)

  build_endpoint-others_fit :
      (re : RawEndpoint) (index : ℕ) (g : RetryPolicy) (seen : List String)
      → IsUsable g
      → is_nil (build_endpoint durations around re index g seen).1 ≡ (
          all_defined around re
          && ((not (is_empty (text_of around re.name))
                && not (any (λ (n : String). n == text_of around re.name) seen))
              && others_fit re))
  unfolding build_endpoint validate_protocol
  build_endpoint-others_fit re index g seen usable =
      let label = endpoint_label index re.name in
      let f = texts_of around re in
      rw (interpolate_fields-texts_of around re label) (
        nil_and _ _ (interpolate_fields-all_defined around re label) (
          nil_and _ _ (validate_name-fits label f.name seen) (
            nil_and _ _ (validate_protocol-fits label re.protocol) (
              nil_and _ _ (error_if-not (is_empty f.host) _) (
                nil_and _ _ (rw (← port-fits re.port) (error_if-not _ _)) (
                  nil_and _ _ (error_if-not (is_empty f.username) _) (
                    nil_and _ _ (validate_auth-fits label re.protocol f.password f.private_key) (
                      nil_and _ _ (error_if-not _ _) (
                        nil_and _ _ (resolve_overwrite-fits label f.overwrite_raw) (
                          nil_and _ _ (private_key_of-succeeds around label f.private_key) (
                            resolve_policy-policy_fits durations re.policy g (label <> ": ")
                              usable)))))))))))

  pub build_endpoint-endpoint_fits :
      (re : RawEndpoint) (index : ℕ) (g : RetryPolicy) (seen : List String)
      → IsUsable g
      → is_nil (build_endpoint durations around re index g seen).1
        ≡ (endpoint_fits re && not (any (λ (n : String). n == text_of around re.name) seen))
  unfolding endpoint_fits
  build_endpoint-endpoint_fits re index g seen usable =
      rw (build_endpoint-others_fit re index g seen usable) (
        and_last (all_defined around re) (not (is_empty (text_of around re.name))) (others_fit re)
          _)

  pub build_endpoint-seen :
      (re : RawEndpoint) (index : ℕ) (g : RetryPolicy) (seen : List String)
      → endpoint_fits re ≡ true
      → any (λ (n : String). n == text_of around re.name) seen ≡ false
      → (build_endpoint durations around re index g seen).2 ≡ text_of around re.name ∷ seen
  unfolding build_endpoint validate_name endpoint_fits
  build_endpoint-seen re index g seen fits new =
      rw (interpolate_fields-texts_of around re (endpoint_label index re.name))
        (ground (arith, fits, new))
