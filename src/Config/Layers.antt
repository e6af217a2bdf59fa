-- ===== src/Config/Layers.antt =====
-- config.go: `resolvePolicy` for an endpoint over `resolvePolicy` for the top level.
use uploadfun.Base.{
  ◌≡◌, refl, ◌⊎◌, inl, inr, ℤ, pos, leb_ℤ, true, String, ◌<>◌, List, [], ◌∷◌, ◌++◌, Any, Option,
  none, some, Err, root, wrap, other, arith, ok, fail,
}
use uploadfun.Upload.{
  default_attempts, default_retry_delay, default_connect_timeout, default_stall_timeout,
  default_max_consecutive_connect_failures,
}
use uploadfun.Config.Policy.{
  RawPolicy, RetryPolicy, default_policy, Durations, resolve_count, parse_duration,
  parse_non_negative_duration, parse_positive_duration, errors_of, resolve_policy,
}
use uploadfun.Config.Ranges.{resolve_policy-nil}

-- The value that counts: the endpoint's, or else that of the top level.
abbrev pub first_set : {A : Type 0} → Option A → Option A → Option A
first_set (some a) top = some a
first_set none top = top

-- A number is the one that is set, or the default.
abbrev pub IsCount : Option ℤ → ℤ → ℤ → Type 0
IsCount none def value = value ≡ def
IsCount (some n) def value = value ≡ n

resolve_count-lem :
    (raw : Option ℤ) (base : ℤ) (label : String) → IsCount raw base (resolve_count raw base label).0
unfolding resolve_count
resolve_count-lem none base label = refl
resolve_count-lem (some n) base label = refl

-- The error is one of these.
abbrev pub IsReported : Err → List Err → Type 0
IsReported e errs = Any (λ (x : Err). x ≡ e) errs

IsReported-behind : (e : Err) (xs ys : List Err) → IsReported e ys → IsReported e (xs ++ ys)
IsReported-behind e [] ys h = h
IsReported-behind e (x ∷ xs) ys h = inr (IsReported-behind e xs ys h)

IsReported-fourth :
    (e : Err) (xs ys zs us vs : List Err)
    → us ≡ e ∷ []
    → IsReported e (xs ++ (ys ++ (zs ++ (us ++ vs))))
IsReported-fourth e xs ys zs us vs is =
    IsReported-behind e xs _
      (IsReported-behind e ys _ (IsReported-behind e zs _ (rw is (inl refl))))

module _ (durations : Durations) where
  -- A time is the one that the text says, where it is set, or the default.
  abbrev pub IsTime : Option String → ℤ → ℤ → Type 0
  IsTime none def value = value ≡ def
  IsTime (some text) def value = durations.parse text ≡ ok value

  parse_non_negative_duration-IsTime :
      (raw : Option String) (base : ℤ) (label : String)
      → let (d, err) = parse_non_negative_duration durations raw base in
        errors_of label err ≡ [] → IsTime raw base d
  unfolding parse_non_negative_duration parse_duration
  parse_non_negative_duration-IsTime none base label e = ground arith
  parse_non_negative_duration-IsTime (some text) base label e = ground arith

  parse_positive_duration-IsTime :
      (raw : Option String) (base : ℤ) (label : String)
      → let (d, err) = parse_positive_duration durations raw base in
        errors_of label err ≡ [] → IsTime raw base d
  unfolding parse_positive_duration parse_duration
  parse_positive_duration-IsTime none base label e = ground arith
  parse_positive_duration-IsTime (some text) base label e = ground arith

  -- The values of a policy over those of another.
  record IsOver (raw : RawPolicy) (base p : RetryPolicy) : Type 0 where
    attempts : IsCount raw.attempts base.attempts p.attempts
    failures :
        IsCount raw.max_consecutive_connect_failures base.max_consecutive_connect_failures
          p.max_consecutive_connect_failures
    retry_delay : IsTime raw.retry_delay base.retry_delay p.retry_delay
    connect_timeout : IsTime raw.connect_timeout base.connect_timeout p.connect_timeout
    stall_timeout : IsTime raw.stall_timeout base.stall_timeout p.stall_timeout

  resolve_policy-IsOver :
      (raw : RawPolicy) (base : RetryPolicy) (prefix : String)
      → (resolve_policy durations raw base prefix).1 ≡ []
      → IsOver raw base (resolve_policy durations raw base prefix).0
  unfolding resolve_policy
  resolve_policy-IsOver raw base prefix e =
      let (e1, e2, e3, e4, e5) = resolve_policy-nil durations raw base prefix e in
      record {
        attempts = resolve_count-lem raw.attempts base.attempts _;
        failures =
            resolve_count-lem raw.max_consecutive_connect_failures
              base.max_consecutive_connect_failures _;
        retry_delay = parse_non_negative_duration-IsTime raw.retry_delay base.retry_delay _ e3;
        connect_timeout =
            parse_positive_duration-IsTime raw.connect_timeout base.connect_timeout _ e4;
        stall_timeout =
            parse_non_negative_duration-IsTime raw.stall_timeout base.stall_timeout _ e5;
      }

  IsTime-layers :
      (own top : Option String) (def middle value : ℤ)
      → IsTime top def middle
      → IsTime own middle value
      → IsTime (first_set own top) def value
  IsTime-layers none none def middle value h k = cc
  IsTime-layers none (some t) def middle value h k = rw k h
  IsTime-layers (some t) top def middle value h k = k

  -- If neither the top level's policy nor an endpoint's over it has an error, every value of the
  -- endpoint's policy is the one that the endpoint sets, or else the one that the top level sets, or
  -- else the default.
  pub resolve_policy-layers :
      (top own : RawPolicy) (prefix : String)
      → (resolve_policy durations top default_policy "").1 ≡ []
      → (resolve_policy durations own (resolve_policy durations top default_policy "").0 prefix).1
        ≡ []
      → let p =
          (resolve_policy durations own
            (resolve_policy durations top default_policy "").0
            prefix).0 in
        IsCount (first_set own.attempts top.attempts) default_attempts p.attempts
        × IsCount
            (first_set own.max_consecutive_connect_failures top.max_consecutive_connect_failures)
            default_max_consecutive_connect_failures
            p.max_consecutive_connect_failures
        × IsTime (first_set own.retry_delay top.retry_delay) default_retry_delay p.retry_delay
        × IsTime
            (first_set own.connect_timeout top.connect_timeout)
            default_connect_timeout
            p.connect_timeout
        × IsTime
            (first_set own.stall_timeout top.stall_timeout)
            default_stall_timeout
            p.stall_timeout
  resolve_policy-layers top own prefix e1 e2 =
      let g = (resolve_policy durations top default_policy "").0 in
      let p = (resolve_policy durations own g prefix).0 in
      let h = resolve_policy-IsOver top default_policy "" e1 in
      let k = resolve_policy-IsOver own g prefix e2 in
      (
        ground (arith, h.attempts, k.attempts),
        ground (arith, h.failures, k.failures),
        IsTime-layers own.retry_delay top.retry_delay _ _ _ h.retry_delay k.retry_delay,
        IsTime-layers own.connect_timeout top.connect_timeout _ _ _ h.connect_timeout
            k.connect_timeout,
        IsTime-layers own.stall_timeout top.stall_timeout _ _ _ h.stall_timeout k.stall_timeout,
      )

  -- The text is no duration, or not a positive one.
  abbrev pub IsRefused : String → Type 0
  IsRefused text =
      ((e : Err) × (durations.parse text ≡ fail e))
      ⊎ ((d : ℤ) × (durations.parse text ≡ ok d) × (leb_ℤ d (pos 0) ≡ true))

  connect_timeout-refused :
      (raw : RawPolicy) (base : RetryPolicy) (prefix text : String)
      → raw.connect_timeout ≡ some text
      → IsRefused text
      → (resolve_policy durations raw base prefix).0.connect_timeout ≡ pos 0
  unfolding resolve_policy parse_positive_duration parse_duration
  connect_timeout-refused raw base prefix text set (inl (e, unread)) = ground (arith, set, unread)
  connect_timeout-refused raw base prefix text set (inr (d, read, low)) =
      ground (arith, set, read, low)

  -- The report of a connect timeout that is 0.
  abbrev pub zero_timeout : String → Err
  zero_timeout prefix =
      wrap ((prefix <> "connect_timeout") <> ": ")
        (root other ("must be positive, got " <> durations.show (pos 0)))

  parse_positive_duration-zero :
      (raw : Option String) (base : ℤ) (prefix : String)
      → raw ≡ none
      → base ≡ pos 0
      → errors_of (prefix <> "connect_timeout") (parse_positive_duration durations raw base).1
        ≡ zero_timeout prefix ∷ []
  unfolding parse_positive_duration parse_duration
  parse_positive_duration-zero raw base prefix unset zero = ground (arith, unset, zero)

  connect_timeout-zero :
      (raw : RawPolicy) (base : RetryPolicy) (prefix : String)
      → raw.connect_timeout ≡ none
      → base.connect_timeout ≡ pos 0
      → IsReported (zero_timeout prefix) (resolve_policy durations raw base prefix).1
  unfolding resolve_policy
  connect_timeout-zero raw base prefix unset zero =
      let counted = resolve_count raw.attempts base.attempts (prefix <> "attempts") in
      let failures =
        resolve_count raw.max_consecutive_connect_failures base.max_consecutive_connect_failures
          (prefix <> "max_consecutive_connect_failures") in
      let delay = parse_non_negative_duration durations raw.retry_delay base.retry_delay in
      let connect = parse_positive_duration durations raw.connect_timeout base.connect_timeout in
      let stall = parse_non_negative_duration durations raw.stall_timeout base.stall_timeout in
      IsReported-fourth (zero_timeout prefix) counted.1 failures.1
        (errors_of (prefix <> "retry_delay") delay.1)
        (errors_of (prefix <> "connect_timeout") connect.1)
        (errors_of (prefix <> "stall_timeout") stall.1)
        (parse_positive_duration-zero raw.connect_timeout base.connect_timeout prefix unset zero)

  -- A connect timeout of the top level that cannot be read, or is not positive, is reported again for
  -- each endpoint that sets none: among the endpoint's errors is one that names its connect timeout, and
  -- says that this must be positive and is 0.
  pub resolve_policy-cascade :
      (top own : RawPolicy) (prefix text : String)
      → top.connect_timeout ≡ some text
      → IsRefused text
      → own.connect_timeout ≡ none
      → Any
          (λ (x : Err).
            x
            ≡ wrap
                ((prefix <> "connect_timeout") <> ": ")
                (root other ("must be positive, got " <> durations.show (pos 0))))
          (resolve_policy durations own (resolve_policy durations top default_policy "").0 prefix).1
  resolve_policy-cascade top own prefix text set refused unset =
      connect_timeout-zero own (resolve_policy durations top default_policy "").0 prefix unset
        (connect_timeout-refused top default_policy "" text set refused)
