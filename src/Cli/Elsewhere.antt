-- ===== src/Cli/Elsewhere.antt =====
-- cmd/uploadfun/printer.go: what the events of other transfers do to the progress of one.
use text.Mathlib.TextEquality.{eq_iff}
use uploadfun.Base.{
  ℕ, ◌≡◌, refl, inl, inr, String, ◌==◌, Bool, Bool-cases, true, false, ◌&&◌, Option, arith, none,
  some,
}
use uploadfun.Upload.{
  UploadEvent, file_start, progress, file_success, file_error, endpoint_unreachable,
  endpoint_given_up, endpoint_done, dry_run,
}
use uploadfun.Cli.Throttle.{ProgressState, find_progress, progress_key}
use uploadfun.Cli.Keys.{has_no_nul, progress_key-eq, find_progress-delete}
use uploadfun.Cli.Printer.{
  Printer, Format, write_stdout, write_stderr, write_unless_quiet, print_progress, handle_progress,
  handle,
}

-- Another transfer, of an endpoint whose name has no NUL.
abbrev pub IsOther : (endpoint file e f : String) → Type 0
IsOther endpoint file e f = (has_no_nul e ≡ true) × ¬ ((e ≡ endpoint) × (f ≡ file))

-- The event does not start, go on with or end this transfer.
abbrev pub IsElsewhere : (endpoint file : String) → UploadEvent → Type 0
IsElsewhere endpoint file (file_start e f _) = IsOther endpoint file e f
IsElsewhere endpoint file (progress e f _ _) = IsOther endpoint file e f
IsElsewhere endpoint file (file_success e f _ _) = IsOther endpoint file e f
IsElsewhere endpoint file _ = Unit

-- The event starts this transfer or goes on with it.
abbrev pub is_about : (endpoint file : String) → UploadEvent → Bool
is_about endpoint file (file_start e f _) = e == endpoint && f == file
is_about endpoint file (progress e f _ _) = e == endpoint && f == file
is_about endpoint file _ = false

pub is_about-IsElsewhere :
    (endpoint file : String) (ev : UploadEvent)
    → IsElsewhere endpoint file ev
    → is_about endpoint file ev ≡ false
is_about-IsElsewhere endpoint file (file_start e f _) h =
    ground (arith, eq_iff e endpoint, eq_iff f file)
is_about-IsElsewhere endpoint file (progress e f _ _) h =
    ground (arith, eq_iff e endpoint, eq_iff f file)
is_about-IsElsewhere endpoint file (file_success _ _ _ _) h = refl
is_about-IsElsewhere endpoint file (file_error _ _ _ _ _) h = refl
is_about-IsElsewhere endpoint file (endpoint_unreachable _ _ _) h = refl
is_about-IsElsewhere endpoint file (endpoint_given_up _ _ _) h = refl
is_about-IsElsewhere endpoint file (endpoint_done _ _ _ _) h = refl
is_about-IsElsewhere endpoint file (dry_run _ _ _) h = refl

progress_key-IsOther :
    (endpoint file e f : String)
    → has_no_nul endpoint ≡ true
    → IsOther endpoint file e f
    → (progress_key e f == progress_key endpoint file) ≡ false
progress_key-IsOther endpoint file e f h (g, other) =
    elim (Bool-cases (progress_key e f == progress_key endpoint file)) [
      | inr differ ↦ differ
      | inl same ↦ absurd (
          other (
            progress_key-eq e f endpoint file g h
              ((eq_iff (progress_key e f) (progress_key endpoint file)).0 same)))
    ]

module _ {C : Type 0} (format : Format C) (endpoint file : String)
    (named : has_no_nul endpoint ≡ true) where
  abbrev found : Printer C → Option ProgressState
  found p = find_progress (progress_key endpoint file) p.progress_map

  handle_progress-found :
      (e f : String) (sent total : ℕ) (p : Printer C)
      → (progress_key e f == progress_key endpoint file) ≡ false
      → let p1 = handle_progress format e f sent total p in
        (found p1 ≡ found p) × (p1.mode ≡ p.mode) × (p1.json ≡ p.json)
  unfolding handle_progress print_progress find_progress write_stdout
  handle_progress-found e f sent total p h = ground (arith, h)

  -- The state of this transfer is kept.
  pub handle-IsElsewhere :
      (ev : UploadEvent) (p : Printer C)
      → IsElsewhere endpoint file ev
      → let p1 = handle format ev p in
        (found p1 ≡ found p) × (p1.mode ≡ p.mode) × (p1.json ≡ p.json)
  unfolding handle find_progress write_stdout write_stderr write_unless_quiet
  handle-IsElsewhere (file_start e f n) p h =
      ground (arith, progress_key-IsOther endpoint file e f named h)
  handle-IsElsewhere (progress e f sent total) p h = ground (
    arith,
    handle_progress-found e f sent total p (progress_key-IsOther endpoint file e f named h),
  )
  handle-IsElsewhere (file_success e f method elapsed) p h = ground (
    arith,
    find_progress-delete (progress_key endpoint file) (progress_key e f) p.progress_map
        (progress_key-IsOther endpoint file e f named h),
  )
  handle-IsElsewhere (file_error e f n reason err) p h = (refl, refl, refl)
  handle-IsElsewhere (endpoint_unreachable e n skipped) p h = (refl, refl, refl)
  handle-IsElsewhere (endpoint_given_up e reason skipped) p h = (refl, refl, refl)
  handle-IsElsewhere (endpoint_done e succeeded failed elapsed) p h = ground arith
  handle-IsElsewhere (dry_run e n none) p h = ground arith
  handle-IsElsewhere (dry_run e n (some err)) p h = (refl, refl, refl)
