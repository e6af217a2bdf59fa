-- ===== src/Cli/Order.antt =====
-- cmd/uploadfun/printer.go and dispatch.go: what of the output does not depend on the order in which the
-- goroutines send.
use uploadfun.Base.{
  ◌≡◌, refl, ap, String, Bool, List, [], ◌∷◌, length, any, count, arith, ltb, Result,
}
use uploadfun.Upload.{Endpoint, Options, Protocol, UploadEvent}
use uploadfun.Dispatch.Effects.{Uploader, Process}
use uploadfun.Dispatch.Fan.{Delivered}
use uploadfun.Dispatch.Bag.{number_of, Delivered-bag}
use uploadfun.Dispatch.Stream.{is_failure}
use uploadfun.Cli.Printer.{OutputMode, default, quiet, Format, new_printer, process_events}
use uploadfun.Cli.Output.{is_error, is_result, process_events-errors, process_events-flag}

any-count :
    (p : UploadEvent → Bool) (events : List UploadEvent) → any p events ≡ ltb 0 (count p events)
any-count p [] = refl
any-count p (ev ∷ events) = ground (arith, any-count p events)

module _ {W C : Type 0} (process : Process W) (new_uploader : Protocol → Result (Uploader W))
    (opts : Options) (files : List String) (format : Format C) where
  -- Every test counts the same in two deliveries, since they are one bag.
  Delivered-count :
      (p : UploadEvent → Bool) (endpoints : List (Endpoint × W)) {first second : List UploadEvent}
      → Delivered process new_uploader opts files endpoints first
      → Delivered process new_uploader opts files endpoints second
      → count p first ≡ count p second
  unfolding number_of
  Delivered-count p endpoints d e =
      ap (number_of p) (Delivered-bag process new_uploader opts files endpoints d e)

  -- Two deliveries of one run, in any two orders, lead to the same flag and to as many lines on the
  -- standard error; in the quiet mode the standard output is the same, and in the default mode it has
  -- as many lines.
  pub process_events-Delivered :
      (endpoints : List (Endpoint × W)) (first second : List UploadEvent) (mode : OutputMode)
      (json : Bool) (clock : C)
      → Delivered process new_uploader opts files endpoints first
      → Delivered process new_uploader opts files endpoints second
      → let (p, flag) = process_events format first (new_printer mode json clock) in
        let (q, flag2) = process_events format second (new_printer mode json clock) in
        (flag ≡ flag2)
        × (length p.stderr ≡ length q.stderr)
        × (mode ≡ quiet → p.stdout ≡ q.stdout)
        × (mode ≡ default → length p.stdout ≡ length q.stdout)
  process_events-Delivered endpoints first second mode json clock d e =
      let start = new_printer mode json clock in
      ground (
        arith,
        process_events-flag format first start,
        process_events-flag format second start,
        any-count is_failure first,
        any-count is_failure second,
        process_events-errors format first mode json clock,
        process_events-errors format second mode json clock,
        Delivered-count is_failure endpoints d e,
        Delivered-count is_error endpoints d e,
        Delivered-count is_result endpoints d e,
      )
