-- ===== src/Config/Accepted.antt =====
-- config.go: `LoadConfig` as a whole.
use text.Mathlib.TextEquality.{eq_iff}
use uploadfun.Base.{
  ℕ, ◌+◌, ◌≤◌, ◌≡◌, ◌≢◌, refl, String, ◌==◌, false, List, [], ◌∷◌, ◌++◌, length, is_nil, any, map,
  All, Distinct, none, Err, arith, ok, Result-cases, inl, inr,
}
use uploadfun.Upload.{Endpoint}
use uploadfun.Config.Policy.{Durations, RetryPolicy, default_policy, resolve_policy}
use uploadfun.Config.Env.{Surroundings}
use uploadfun.Config.Fields.{RawEndpoint, RawConfig, error_if}
use uploadfun.Config.Load.{
  ConfigSource, join_all, build_endpoint, build_all, build_config, load_config,
}
use uploadfun.Config.Ranges.{IsUsable, append-nil_parts, resolve_policy-IsUsable}
use uploadfun.Config.Valid.{IsValid, error_if-nil, build_endpoint-IsValid}

abbrev pub names : List Endpoint → List String
names endpoints = map (λ ep. ep.name) endpoints

-- The names are not among those seen.
abbrev pub AllNew : List String → List String → Type 0
AllNew seen ns = All (λ (n : String). any (λ (m : String). m == n) seen ≡ false) ns

pub AllNew-cons :
    (name : String) (seen seen1 ns : List String)
    → seen1 ≡ name ∷ seen
    → AllNew seen1 ns
    → AllNew seen ns × All (λ (n : String). name ≢ n) ns
AllNew-cons name seen seen1 [] e h = (tt, tt)
AllNew-cons name seen seen1 (n ∷ ns) e (h, hs) =
    ground (arith, e, h, eq_iff name n, AllNew-cons name seen seen1 ns e hs)

is_nil-length : {A : Type 0} (xs : List A) → is_nil xs ≡ false → 1 ≤ length xs
is_nil-length [] h = absurd cc
is_nil-length (x ∷ xs) h = omega arith

at_least_one : {m n : ℕ} → m ≡ n → 1 ≤ n → 1 ≤ m
at_least_one e h = omega (arith, e, h)

join_all-none : (errs : List Err) → join_all errs ≡ none → errs ≡ []
unfolding join_all
join_all-none [] h = refl
join_all-none (e ∷ []) h = absurd cc
join_all-none (e ∷ f ∷ errs) h = ground arith

pub default_policy-IsUsable : IsUsable default_policy
default_policy-IsUsable = record {
  attempts = omega arith;
  retry_delay = refl;
  connect_timeout = omega arith;
  stall_timeout = refl;
  max_consecutive_connect_failures = omega arith;
}

module _ (durations : Durations) (around : Surroundings) where
  build_all-IsValid :
      (raws : List RawEndpoint) (index : ℕ) (g : RetryPolicy) (seen : List String)
      → IsUsable g
      → let (eps, errs) = build_all durations around raws index g seen in
        errs ≡ []
        → (length eps ≡ length raws)
          × All IsValid eps
          × AllNew seen (names eps)
          × Distinct (names eps)
  unfolding build_all
  build_all-IsValid [] index g seen usable e = (refl, tt, tt, tt)
  build_all-IsValid (re ∷ raws) index g seen usable e =
      let (errs_ok, more_ok) = append-nil_parts _ _ e in
      let (valid, unseen, seen_ok) =
        build_endpoint-IsValid durations around re index g seen usable errs_ok in
      let seen1 = (build_endpoint durations around re index g seen).2 in
      let (len, valids, fresh, distinct) =
        build_all-IsValid raws (index + 1) g seen1 usable more_ok in
      let (fresh1, other_names) = AllNew-cons _ seen seen1 _ seen_ok fresh in
      (omega (arith, len), (valid, valids), (unseen, fresh1), (other_names, distinct))

  build_config-parts :
      (raw : RawConfig) (endpoints : List Endpoint)
      → build_config durations around raw ≡ ok endpoints
      → let (g, global_errs) = resolve_policy durations raw.policy default_policy "" in
        let none_errs =
          error_if (is_nil raw.endpoints) "endpoints: at least one endpoint is required" in
        let (eps, endpoint_errs) = build_all durations around raw.endpoints 0 g [] in
        (global_errs ++ (none_errs ++ endpoint_errs) ≡ []) × (endpoints ≡ eps)
  unfolding build_config
  build_config-parts raw endpoints h =
      let (g, global_errs) = resolve_policy durations raw.policy default_policy "" in
      let none_errs =
        error_if (is_nil raw.endpoints) "endpoints: at least one endpoint is required" in
      let (eps, endpoint_errs) = build_all durations around raw.endpoints 0 g [] in
      ground (arith, h, join_all-none (global_errs ++ (none_errs ++ endpoint_errs)))

  build_config-IsValid :
      (raw : RawConfig) (endpoints : List Endpoint)
      → build_config durations around raw ≡ ok endpoints
      → (1 ≤ length endpoints) × All IsValid endpoints × Distinct (names endpoints)
  build_config-IsValid raw endpoints h =
      let (errs_ok, same) = build_config-parts raw endpoints h in
      let (global_ok, r) = append-nil_parts _ _ errs_ok in
      let (none_ok, endpoint_ok) = append-nil_parts _ _ r in
      let usable =
        resolve_policy-IsUsable durations raw.policy default_policy "" default_policy-IsUsable
          global_ok in
      let (len, valid, _, distinct) = build_all-IsValid raw.endpoints 0 _ [] usable endpoint_ok in
      let some_raw : is_nil raw.endpoints ≡ false = error_if-nil _ _ none_ok in
      rw same (at_least_one len (is_nil-length raw.endpoints some_raw), valid, distinct)

  -- What `LoadConfig` returns is at least one endpoint; all of them are valid and their names are
  -- distinct.
  pub load_config-IsValid :
      (source : ConfigSource) (path : String) (endpoints : List Endpoint)
      → load_config durations around source path ≡ ok endpoints
      → (1 ≤ length endpoints) × All IsValid endpoints × Distinct (map (λ ep. ep.name) endpoints)
  unfolding load_config
  load_config-IsValid source path endpoints h = elim (Result-cases (source.read_file path)) [
    | inl (e, bad) ↦ absurd (ground (arith, bad))
    | inr (text, read) ↦ elim (Result-cases (source.unmarshal text)) [
      | inl (e, bad) ↦ absurd (ground (arith, read, bad))
      | inr (raw, decoded) ↦ build_config-IsValid raw endpoints (ground (arith, h, read, decoded))
    ]
  ]
