-- ===== src/Config/Ranges.antt =====
-- config.go: the ranges of what `resolvePolicy` accepts.
use uploadfun.Base.{
  ◌≤◌, ◌≡◌, refl, ℤ, pos_part, neg_part, String, ◌<>◌, List, [], ◌∷◌, ◌++◌, Option, none, some,
  arith,
}
use uploadfun.Config.Policy.{
  RawPolicy, RetryPolicy, Durations, resolve_count, parse_duration, parse_non_negative_duration,
  parse_positive_duration, errors_of, resolve_policy,
}

-- The numbers and times of a policy are in their ranges.
pub record IsUsable (p : RetryPolicy) : Type 0 where
  pub attempts : 1 ≤ pos_part p.attempts
  pub retry_delay : neg_part p.retry_delay ≡ 0
  pub connect_timeout : 1 ≤ pos_part p.connect_timeout
  pub stall_timeout : neg_part p.stall_timeout ≡ 0
  pub max_consecutive_connect_failures : 1 ≤ pos_part p.max_consecutive_connect_failures

pub append-nil_parts : {A : Type 0} (xs ys : List A) → xs ++ ys ≡ [] → (xs ≡ []) × (ys ≡ [])
append-nil_parts [] ys h = (refl, h)
append-nil_parts (x ∷ xs) ys h = absurd cc

resolve_count-positive :
    (raw : Option ℤ) (base : ℤ) (label : String)
    → 1 ≤ pos_part base
    → (resolve_count raw base label).1 ≡ []
    → 1 ≤ pos_part (resolve_count raw base label).0
unfolding resolve_count
resolve_count-positive none base label h e = h
resolve_count-positive (some n) base label h e = ground arith

module _ (durations : Durations) where
  parse_non_negative_duration-lem :
      (raw : Option String) (base : ℤ) (label : String)
      → neg_part base ≡ 0
      → let (d, err) = parse_non_negative_duration durations raw base in
        errors_of label err ≡ [] → neg_part d ≡ 0
  unfolding parse_non_negative_duration parse_duration
  parse_non_negative_duration-lem raw base label h e = ground arith

  parse_positive_duration-lem :
      (raw : Option String) (base : ℤ) (label : String)
      → let (d, err) = parse_positive_duration durations raw base in
        errors_of label err ≡ [] → 1 ≤ pos_part d
  unfolding parse_positive_duration parse_duration
  parse_positive_duration-lem raw base label e = ground arith

  -- A policy without errors is one whose five values have none.
  pub resolve_policy-nil :
      (raw : RawPolicy) (base : RetryPolicy) (prefix : String)
      → (resolve_policy durations raw base prefix).1 ≡ []
      → ((resolve_count raw.attempts base.attempts (prefix <> "attempts")).1 ≡ [])
        × ((resolve_count raw.max_consecutive_connect_failures base.max_consecutive_connect_failures
              (prefix <> "max_consecutive_connect_failures")).1
            ≡ [])
        × (errors_of
              (prefix <> "retry_delay")
              (parse_non_negative_duration durations raw.retry_delay base.retry_delay).1
            ≡ [])
        × (errors_of
              (prefix <> "connect_timeout")
              (parse_positive_duration durations raw.connect_timeout base.connect_timeout).1
            ≡ [])
        × (errors_of
              (prefix <> "stall_timeout")
              (parse_non_negative_duration durations raw.stall_timeout base.stall_timeout).1
            ≡ [])
  unfolding resolve_policy
  resolve_policy-nil raw base prefix e =
      let (e1, r1) = append-nil_parts _ _ e in
      let (e2, r2) = append-nil_parts _ _ r1 in
      let (e3, r3) = append-nil_parts _ _ r2 in
      let (e4, e5) = append-nil_parts _ _ r3 in (e1, e2, e3, e4, e5)

  pub resolve_policy-IsUsable :
      (raw : RawPolicy) (base : RetryPolicy) (prefix : String)
      → IsUsable base
      → (resolve_policy durations raw base prefix).1 ≡ []
      → IsUsable (resolve_policy durations raw base prefix).0
  unfolding resolve_policy
  resolve_policy-IsUsable raw base prefix h e =
      let (e1, e2, e3, e4, e5) = resolve_policy-nil raw base prefix e in
      record {
        attempts = resolve_count-positive raw.attempts base.attempts _ h.attempts e1;
        retry_delay =
            parse_non_negative_duration-lem raw.retry_delay base.retry_delay _ h.retry_delay e3;
        connect_timeout = parse_positive_duration-lem raw.connect_timeout base.connect_timeout _ e4;
        stall_timeout =
            parse_non_negative_duration-lem raw.stall_timeout base.stall_timeout _ h.stall_timeout
              e5;
        max_consecutive_connect_failures =
            resolve_count-positive raw.max_consecutive_connect_failures
              base.max_consecutive_connect_failures _ h.max_consecutive_connect_failures e2;
      }
