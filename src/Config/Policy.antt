-- ===== src/Config/Policy.antt =====
-- config.go: `rawPolicy`, `retryPolicy`, `resolvePolicy` and the durations.
use uploadfun.Base.{
  ℤ, pos, ltb_ℤ, leb_ℤ, String, ◌<>◌, List, [], ◌∷◌, ◌++◌, Option, none, some, Err, root, wrap,
  other, Result, ok, fail, if◌then◌else◌,
}
use uploadfun.Base.Text.{show_ℤ}
use uploadfun.Upload.{
  default_attempts, default_retry_delay, default_connect_timeout, default_stall_timeout,
  default_max_consecutive_connect_failures,
}

pub record RawPolicy : Type 0 where
  pub attempts : Option ℤ
  pub retry_delay : Option String
  pub connect_timeout : Option String
  pub stall_timeout : Option String
  pub max_consecutive_connect_failures : Option ℤ

pub record RetryPolicy : Type 0 where
  pub attempts : ℤ
  pub retry_delay : ℤ
  pub connect_timeout : ℤ
  pub stall_timeout : ℤ
  pub max_consecutive_connect_failures : ℤ

abbrev pub default_policy : RetryPolicy
default_policy = record {
  attempts = default_attempts;
  retry_delay = default_retry_delay;
  connect_timeout = default_connect_timeout;
  stall_timeout = default_stall_timeout;
  max_consecutive_connect_failures = default_max_consecutive_connect_failures;
}

-- `time.ParseDuration`, which returns 0 with an error, and the `%v` of a duration.
pub record Durations : Type 0 where
  pub parse : String → Result ℤ
  pub show : ℤ → String

-- An integer that is at least 1 where it is set.
unfoldable pub resolve_count : Option ℤ → ℤ → String → ℤ × List Err
resolve_count none base label = (base, [])
resolve_count (some n) base label = (
  n,
  if ltb_ℤ n (pos 1) then root other (label <> ": must be >= 1, got " <> show_ℤ n) ∷ [] else [],
)

abbrev pub errors_of : String → Option Err → List Err
errors_of label none = []
errors_of label (some e) = wrap (label <> ": ") e ∷ []

module _ (durations : Durations) where
  unfoldable pub parse_duration : Option String → ℤ → ℤ × Option Err
  parse_duration none def = (def, none)
  parse_duration (some text) def = elim (durations.parse text) [
    | ok d ↦ (d, none)
    | fail e ↦ (pos 0, some e)
  ]

  unfoldable pub parse_non_negative_duration : Option String → ℤ → ℤ × Option Err
  parse_non_negative_duration raw def =
      let (d, err) = parse_duration raw def in
      elim err [
        | some e ↦ (d, some e)
        | none ↦
            if ltb_ℤ d (pos 0)
            then (pos 0, some (root other ("must not be negative, got " <> durations.show d)))
            else (d, none)
      ]

  unfoldable pub parse_positive_duration : Option String → ℤ → ℤ × Option Err
  parse_positive_duration raw def =
      let (d, err) = parse_duration raw def in
      elim err [
        | some e ↦ (d, some e)
        | none ↦
            if leb_ℤ d (pos 0)
            then (pos 0, some (root other ("must be positive, got " <> durations.show d)))
            else (d, none)
      ]

  unfoldable pub resolve_policy : RawPolicy → RetryPolicy → String → RetryPolicy × List Err
  resolve_policy raw base prefix =
      let (attempts, attempts_errs) =
        resolve_count raw.attempts base.attempts (prefix <> "attempts") in
      let (failures, failures_errs) =
        resolve_count raw.max_consecutive_connect_failures base.max_consecutive_connect_failures
          (prefix <> "max_consecutive_connect_failures") in
      let (delay, delay_err) = parse_non_negative_duration raw.retry_delay base.retry_delay in
      let (connect, connect_err) =
        parse_positive_duration raw.connect_timeout base.connect_timeout in
      let (stall, stall_err) = parse_non_negative_duration raw.stall_timeout base.stall_timeout in
      (
        record {
          attempts = attempts;
          retry_delay = delay;
          connect_timeout = connect;
          stall_timeout = stall;
          max_consecutive_connect_failures = failures;
        },
        attempts_errs
            ++ (failures_errs
                ++ (errors_of (prefix <> "retry_delay") delay_err
                    ++ (errors_of (prefix <> "connect_timeout") connect_err
                        ++ errors_of (prefix <> "stall_timeout") stall_err))),
      )
