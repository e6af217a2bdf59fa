-- ===== src/Dispatch/Stream.antt =====
-- dispatch.go: what a consumer of the channel of `Upload` receives, in whatever order the goroutines
-- send.
use mathlib.Core.List.{flatten}
use uploadfun.Base.{
  ◌++◌, ◌+◌, ◌≡◌, refl, ◌∙◌, ap, String, Bool, true, false, ◌||◌, List, [], ◌∷◌, length, any, count,
  total, reverse_aux, reverse, is_some, arith, ltb, Result, ok, fail, Err, ◌↔◌, All, map,
}
use uploadfun.Upload.{Endpoint, Options, Protocol, UploadEvent, endpoint_done, dry_run}
use uploadfun.Dispatch.Effects.{Uploader, Process, Action, Log, sent, sent_before}
use uploadfun.Dispatch.Probe.{
  run_dry_run, outcome, probe_writable, new_probe_file, probe_remote_name, round_trip,
}
use uploadfun.Dispatch.Fan.{
  fail_each, fail_all_files, Shuffle, Shuffles, run_uploader, run_endpoint, Delivered,
}
use uploadfun.Dispatch.Tally.{success_files, reports, run-reports}

-- An event that ends the part of an endpoint.
abbrev pub is_report : UploadEvent → Bool
is_report (endpoint_done _ _ _ _) = true
is_report (dry_run _ _ _) = true
is_report _ = false

-- One that says that something failed for good.
abbrev pub is_failure : UploadEvent → Bool
is_failure (endpoint_done _ _ failed _) = ltb 0 failed
is_failure (dry_run _ _ err) = is_some err
is_failure _ = false

module _ {ℓ} {A : Type ℓ} (p : A → Bool) where
  pub count-Shuffle : {xs ys zs : List A} → Shuffle xs ys zs → count p zs ≡ count p xs + count p ys
  count-Shuffle Shuffle.neither = refl
  count-Shuffle (Shuffle.left s) = ground (arith, count-Shuffle s)
  count-Shuffle (Shuffle.right s) = ground (arith, count-Shuffle s)

  pub any-Shuffle : {xs ys zs : List A} → Shuffle xs ys zs → any p zs ≡ (any p xs || any p ys)
  any-Shuffle Shuffle.neither = refl
  any-Shuffle (Shuffle.left s) = ground (arith, any-Shuffle s)
  any-Shuffle (Shuffle.right s) = ground (arith, any-Shuffle s)

  pub any-Shuffles :
      {xss : List (List A)} {zs : List A} → Shuffles xss zs → any p zs ≡ any (any p) xss
  any-Shuffles Shuffles.none = refl
  any-Shuffles (Shuffles.one_more r s) = ground (arith, any-Shuffle s, any-Shuffles r)

  pub count-Shuffles :
      {xss : List (List A)} {zs : List A} → Shuffles xss zs → count p zs ≡ total (count p) xss
  count-Shuffles Shuffles.none = refl
  count-Shuffles (Shuffles.one_more r s) = ground (arith, count-Shuffle s, count-Shuffles r)

any-failure-sent_before :
    (l : Log) (later : List UploadEvent)
    → any is_failure (sent_before l later) ≡ (any is_failure (reports l) || any is_failure later)
any-failure-sent_before [] later = refl
any-failure-sent_before (Action.event e ∷ l) later =
    ground (arith, any-failure-sent_before l (e ∷ later))
any-failure-sent_before (_ ∷ l) later = any-failure-sent_before l later

count-report-sent_before :
    (l : Log) (later : List UploadEvent)
    → count is_report (sent_before l later) ≡ length (reports l) + count is_report later
count-report-sent_before [] later = omega arith
count-report-sent_before (Action.event e ∷ l) later =
    ground (arith, count-report-sent_before l (e ∷ later))
count-report-sent_before (_ ∷ l) later = count-report-sent_before l later

fail_each-reports :
    (ep : Endpoint) (files : List String) (e : Err) (l : Log)
    → reports (fail_each ep files e l) ≡ reports l
unfolding fail_each
fail_each-reports ep [] e l = refl
fail_each-reports ep (file ∷ files) e l = fail_each-reports ep files e _

fail_each-success_files :
    (ep : Endpoint) (files : List String) (e : Err) (l : Log)
    → success_files (fail_each ep files e l) ≡ success_files l
unfolding fail_each
fail_each-success_files ep [] e l = refl
fail_each-success_files ep (file ∷ files) e l = fail_each-success_files ep files e _

length-reverse_aux {ℓ} :
    {A : Type ℓ} (xs acc : List A) → length (reverse_aux xs acc) ≡ length xs + length acc
length-reverse_aux [] acc = omega arith
length-reverse_aux (x ∷ xs) acc = omega (arith, length-reverse_aux xs (x ∷ acc))

reverse-of_length-zero {ℓ} : {A : Type ℓ} (xs : List A) → length xs ≡ 0 → reverse xs ≡ []
reverse-of_length-zero [] h = refl
reverse-of_length-zero (x ∷ xs) h = absurd (omega arith)

run_dry_run-reports :
    {W : Type 0} (process : Process W) (up : Uploader W) (ep : Endpoint) (files : List String)
    (world : W)
    → length (reports (run_dry_run process up ep files (record { world = world; log = [] })).log)
      ≡ 1
unfolding run_dry_run probe_writable new_probe_file probe_remote_name round_trip outcome
run_dry_run-reports process up ep files world = ground arith

module _ {W : Type 0} (process : Process W) (opts : Options) (files : List String) where
  run_uploader-reports :
      (r : Result (Uploader W)) (ep : Endpoint) (world : W)
      → length (reports (run_uploader process opts files r ep world)) ≡ 1
  unfolding run_uploader fail_all_files
  run_uploader-reports (fail e) ep world = ground (arith, fail_each-reports ep files e [])
  run_uploader-reports (ok up) ep world = ground (
    arith,
    run-reports process up ep opts files world,
    run_dry_run-reports process up ep files world,
  )

  -- Without a dry run the report of an endpoint says that something failed, or all files are uploaded.
  run_uploader-success_files :
      (r : Result (Uploader W)) (ep : Endpoint) (world : W)
      → opts.dry_run ≡ false
      → let l = run_uploader process opts files r ep world in
        (any is_failure (reports l) ≡ false) ↔ (success_files l ≡ reverse files)
  unfolding run_uploader fail_all_files
  run_uploader-success_files (fail e) ep world real = (
    ground (
      arith,
      fail_each-reports ep files e [],
      fail_each-success_files ep files e [],
      reverse-of_length-zero files,
    ),
    λ h. ground (
      arith,
      fail_each-reports ep files e [],
      fail_each-success_files ep files e [],
      ap length h,
      length-reverse_aux files [],
    ),
  )
  run_uploader-success_files (ok up) ep world real =
      let facts = run-reports process up ep opts files world in
      (ground (arith, facts), λ h. ground (arith, facts, ap length h, length-reverse_aux files []))

module _ {W : Type 0} (process : Process W) (new_uploader : Protocol → Result (Uploader W))
    (opts : Options) (files : List String) where
  -- What each endpoint of a batch sends.
  abbrev streams : List (Endpoint × W) → List (List UploadEvent)
  streams = map (λ (ep, world). sent (run_endpoint process new_uploader opts files ep world))

  -- The endpoint, in its world, uploads all files, in order.
  abbrev pub UploadsAll : Endpoint × W → Type 0
  UploadsAll (ep, world) =
      success_files (run_endpoint process new_uploader opts files ep world) ≡ reverse files

  any-failure-streams :
      (endpoints : List (Endpoint × W))
      → opts.dry_run ≡ false
      → (any (any is_failure) (streams endpoints) ≡ false) ↔ All UploadsAll endpoints
  unfolding run_endpoint
  any-failure-streams [] real = (λ _. tt, λ _. refl)
  any-failure-streams ((ep, world) ∷ more) real =
      let r = new_uploader ep.protocol in
      ground (
        arith,
        any-failure-sent_before (run_uploader process opts files r ep world) [],
        run_uploader-success_files process opts files r ep world real,
        any-failure-streams more real,
      )

  count-report-streams :
      (endpoints : List (Endpoint × W))
      → total (count is_report) (streams endpoints) ≡ length endpoints
  unfolding run_endpoint
  count-report-streams [] = refl
  count-report-streams ((ep, world) ∷ more) =
      let r = new_uploader ep.protocol in
      ground (
        arith,
        count-report-sent_before (run_uploader process opts files r ep world) [],
        run_uploader-reports process opts files r ep world,
        count-report-streams more,
      )

  -- In whatever order the goroutines send, the channel delivers one report for each endpoint.
  pub Delivered-count-report :
      (endpoints : List (Endpoint × W)) {events : List UploadEvent}
      → Delivered process new_uploader opts files endpoints events
      → count is_report events ≡ length endpoints
  Delivered-count-report endpoints d = count-Shuffles is_report d ∙ count-report-streams endpoints

  -- In whatever order the goroutines of a real run send, no report that is delivered says that
  -- something failed exactly if every endpoint has uploaded all files, in order.
  pub Delivered-failure :
      (endpoints : List (Endpoint × W)) {events : List UploadEvent}
      → opts.dry_run ≡ false
      → Delivered process new_uploader opts files endpoints events
      → (any is_failure events ≡ false) ↔ All UploadsAll endpoints
  Delivered-failure endpoints real d =
      rw (any-Shuffles is_failure d) (any-failure-streams endpoints real)

-- One order that is always possible: each goroutine after the one before.
pub Shuffle-append {ℓ} : {A : Type ℓ} (xs ys : List A) → Shuffle xs ys (xs ++ ys)
Shuffle-append [] [] = Shuffle.neither
Shuffle-append [] (y ∷ ys) = Shuffle.right (Shuffle-append [] ys)
Shuffle-append (x ∷ xs) ys = Shuffle.left (Shuffle-append xs ys)

pub Shuffles-flatten {ℓ} : {A : Type ℓ} (xss : List (List A)) → Shuffles xss (flatten xss)
unfolding flatten
Shuffles-flatten [] = Shuffles.none
Shuffles-flatten (xs ∷ xss) = Shuffles.one_more (Shuffles-flatten xss) (Shuffle-append xs _)
