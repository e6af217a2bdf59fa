-- ===== src/Config/Decision.antt =====
-- config.go: which configurations `LoadConfig` takes.
use uploadfun.Base.{
  ℕ, ◌+◌, ◌≡◌, ◌↔◌, refl, String, Bool, true, false, not, ◌&&◌, List, [], ◌∷◌, ◌++◌, is_nil, map,
  All, Distinct, is_some, sym, ◌∙◌, Err, ok, arith,
}
use uploadfun.Config.Policy.{Durations, RetryPolicy, default_policy, resolve_policy}
use uploadfun.Config.Env.{Surroundings}
use uploadfun.Config.Fields.{RawEndpoint, RawConfig, error_if}
use uploadfun.Config.Load.{
  ConfigSource, join_all, build_endpoint, build_all, build_config, load_config,
}
use uploadfun.Config.Ranges.{IsUsable, resolve_policy-IsUsable}
use uploadfun.Config.Accepted.{AllNew, AllNew-cons, default_policy-IsUsable}
use uploadfun.Config.Complete.{AllNew-grow, AllNew-nil}
use uploadfun.Config.Judged.{endpoint_fits, build_endpoint-endpoint_fits, build_endpoint-seen}
use uploadfun.Config.Reference.{
  succeeds, policy_fits, nil_and, resolve_policy-policy_fits, error_if-not, text_of,
}

is_nil_lem : {A : Type 0} (xs : List A) → is_nil xs ≡ true → xs ≡ []
is_nil_lem [] h = refl
is_nil_lem (x ∷ xs) h = absurd cc

and_parts : (a b c : Bool) → ((a && b) && c) ≡ true → (a ≡ true) × (b ≡ true) × (c ≡ true)
and_parts a b c h = ground arith

and_true : (a b : Bool) → (a && b) ≡ true → (a ≡ true) × (b ≡ true)
and_true a b h = ground arith

not-false : (b : Bool) → not b ≡ true → b ≡ false
not-false b h = ground arith

module _ (durations : Durations) (around : Surroundings) where
  abbrev pub names_of : List RawEndpoint → List String
  names_of raws = map (λ (re : RawEndpoint). text_of around re.name) raws

  build_all-fits :
      (raws : List RawEndpoint) (index : ℕ) (g : RetryPolicy) (seen : List String)
      → IsUsable g
      → is_nil (build_all durations around raws index g seen).1 ≡ true
      → All (λ (re : RawEndpoint). endpoint_fits durations around re ≡ true) raws
        × AllNew seen (names_of raws)
        × Distinct (names_of raws)
  unfolding build_all
  build_all-fits [] index g seen usable h = (tt, tt, tt)
  build_all-fits (re ∷ raws) index g seen usable h =
      let seen1 = (build_endpoint durations around re index g seen).2 in
      let more = (build_all durations around raws (index + 1) g seen1).1 in
      let all_nil =
        nil_and _ more (build_endpoint-endpoint_fits durations around re index g seen usable)
          refl in
      let (fits, unseen, rest) =
        and_parts (endpoint_fits durations around re) _ (is_nil more) (sym all_nil ∙ h) in
      let new = not-false _ unseen in
      let (fit, fresh, distinct) = build_all-fits raws (index + 1) g seen1 usable rest in
      let (fresh1, other_names) =
        AllNew-cons _ seen seen1 _ (build_endpoint-seen durations around re index g seen fits new)
          fresh in
      ((fits, fit), (new, fresh1), (other_names, distinct))

  build_all-nil :
      (raws : List RawEndpoint) (index : ℕ) (g : RetryPolicy) (seen : List String)
      → IsUsable g
      → All (λ (re : RawEndpoint). endpoint_fits durations around re ≡ true) raws
      → AllNew seen (names_of raws)
      → Distinct (names_of raws)
      → is_nil (build_all durations around raws index g seen).1 ≡ true
  unfolding build_all
  build_all-nil [] index g seen usable fits new distinct = refl
  build_all-nil (re ∷ raws) index g seen usable (fits, fit) (new, news) (other_names, distinct) =
      let seen1 = (build_endpoint durations around re index g seen).2 in
      let more = (build_all durations around raws (index + 1) g seen1).1 in
      let all_nil =
        nil_and _ more (build_endpoint-endpoint_fits durations around re index g seen usable)
          refl in
      let seen_ok = build_endpoint-seen durations around re index g seen fits new in
      let fresh : AllNew seen1 (names_of raws) =
        rw seen_ok (AllNew-grow _ seen _ news other_names) in
      rw (all_nil, fits, new) (build_all-nil raws (index + 1) g seen1 usable fit fresh distinct)

  join_all-is_nil : (errs : List Err) → is_some (join_all errs) ≡ not (is_nil errs)
  unfolding join_all
  join_all-is_nil [] = refl
  join_all-is_nil (e ∷ []) = refl
  join_all-is_nil (e ∷ f ∷ errs) = ground arith

  -- The conditions on a configuration.
  pub record IsAcceptable (raw : RawConfig) : Type 0 where
    policy : policy_fits durations raw.policy ≡ true
    inhabited : is_nil raw.endpoints ≡ false
    endpoints : All (λ (re : RawEndpoint). endpoint_fits durations around re ≡ true) raw.endpoints
    names : Distinct (names_of raw.endpoints)

  build_config-succeeds :
      (raw : RawConfig)
      → let g = (resolve_policy durations raw.policy default_policy "").0 in
        succeeds (build_config durations around raw) ≡ (
          policy_fits durations raw.policy
          && (not (is_nil raw.endpoints)
              && is_nil (build_all durations around raw.endpoints 0 g []).1))
  unfolding build_config
  build_config-succeeds raw =
      let (g, global_errs) = resolve_policy durations raw.policy default_policy "" in
      let none_errs =
        error_if (is_nil raw.endpoints) "endpoints: at least one endpoint is required" in
      let endpoint_errs = (build_all durations around raw.endpoints 0 g []).1 in
      ground (
        arith,
        join_all-is_nil (global_errs ++ (none_errs ++ endpoint_errs)),
        nil_and global_errs _
            (resolve_policy-policy_fits durations raw.policy default_policy ""
              default_policy-IsUsable)
            (nil_and none_errs endpoint_errs (error_if-not (is_nil raw.endpoints) _) refl),
      )

  policy-IsUsable :
      (raw : RawConfig)
      → policy_fits durations raw.policy ≡ true
      → IsUsable (resolve_policy durations raw.policy default_policy "").0
  policy-IsUsable raw h =
      resolve_policy-IsUsable durations raw.policy default_policy "" default_policy-IsUsable (
        is_nil_lem _ (
          ground (
            arith,
            h,
            resolve_policy-policy_fits durations raw.policy default_policy ""
                default_policy-IsUsable,
          )))

  build_config-IsAcceptable :
      (raw : RawConfig) → succeeds (build_config durations around raw) ≡ true → IsAcceptable raw
  build_config-IsAcceptable raw h =
      let (policy_ok, r) = and_true _ _ (sym (build_config-succeeds raw) ∙ h) in
      let (some_raw, all_nil) = and_true _ _ r in
      let (fits, _, distinct) =
        build_all-fits raw.endpoints 0 _ [] (policy-IsUsable raw policy_ok) all_nil in
      record {
        policy = policy_ok;
        inhabited = not-false _ some_raw;
        endpoints = fits;
        names = distinct;
      }

  IsAcceptable-build_config :
      (raw : RawConfig) → IsAcceptable raw → succeeds (build_config durations around raw) ≡ true
  IsAcceptable-build_config raw h =
      rw (build_config-succeeds raw, h.policy, h.inhabited)
        (build_all-nil raw.endpoints 0 _ [] (policy-IsUsable raw h.policy) h.endpoints
          (AllNew-nil (names_of raw.endpoints)) h.names)

  load_config-decoded :
      (source : ConfigSource) (path text : String) (raw : RawConfig)
      → source.read_file path ≡ ok text
      → source.unmarshal text ≡ ok raw
      → load_config durations around source path ≡ build_config durations around raw
  unfolding load_config
  load_config-decoded source path text raw read decoded = ground (arith, read, decoded)

  -- A configuration that is read and decoded is loaded exactly if each value of the policy on top, where
  -- it is set, is in its range, there is an endpoint, each endpoint meets the conditions on its fields,
  -- and the endpoints' names, with their variables replaced, are distinct. The conditions on the name,
  -- host, username, password, private key and overwrite mode are on the texts with their variables
  -- replaced, which must all be set; those on the protocol and on the policies are on the texts as they
  -- are written, so that a variable in a protocol is refused.
  pub load_config-IsAcceptable :
      (source : ConfigSource) (path text : String) (raw : RawConfig)
      → source.read_file path ≡ ok text
      → source.unmarshal text ≡ ok raw
      → (succeeds (load_config durations around source path) ≡ true) ↔ IsAcceptable raw
  load_config-IsAcceptable source path text raw read decoded =
      rw (load_config-decoded source path text raw read decoded)
        (build_config-IsAcceptable raw, IsAcceptable-build_config raw)
