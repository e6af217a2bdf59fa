-- ===== src/Dispatch/Fan.antt =====
-- dispatch.go and uploadfun.go: `runEndpoint` and `failAllFiles` for one endpoint, `dispatch` and
-- `Upload` for all of them at once. Each goroutine sees a world of its own, which stands for all
-- that the rest of the process and its servers do meanwhile; the events of all goroutines reach the
-- channel in some interleaving of the sequences in which each sends its own.
use uploadfun.Base.{
  pos, String, List, [], ◌∷◌, length, map, some, Err, message, Result, ok, fail, if◌then◌else◌,
}
use uploadfun.Upload.{Endpoint, Options, Protocol, UploadEvent, file_error, endpoint_done, dry_run}
use uploadfun.Dispatch.Effects.{Uploader, Process, Action, Log, new_worker, sent}
use uploadfun.Dispatch.Worker.{run}
use uploadfun.Dispatch.Probe.{run_dry_run}

-- The loop of `failAllFiles`, onto a log.
unfoldable pub fail_each : Endpoint → List String → Err → Log → Log
fail_each ep [] e l = l
fail_each ep (file ∷ files) e l =
    fail_each ep files e (Action.event (file_error ep.name file 1 (message e) e) ∷ l)

unfoldable pub fail_all_files : Endpoint → List String → Err → Log
fail_all_files ep files e =
    Action.event (endpoint_done ep.name 0 (length files) (pos 0)) ∷ fail_each ep files e []

-- A shuffle of two sequences keeps the order of each.
pub data Shuffle {ℓ} {A : Type ℓ} : List A → List A → List A → Type ℓ where
  neither : Shuffle [] [] []
  left : {x : A} {xs ys zs : List A} → Shuffle xs ys zs → Shuffle (x ∷ xs) ys (x ∷ zs)
  right : {y : A} {xs ys zs : List A} → Shuffle xs ys zs → Shuffle xs (y ∷ ys) (y ∷ zs)

pub data Shuffles {ℓ} {A : Type ℓ} : List (List A) → List A → Type ℓ where
  none : Shuffles [] []
  one_more :
      {xs ys zs : List A} {rest : List (List A)}
      → Shuffles rest ys
      → Shuffle xs ys zs
      → Shuffles (xs ∷ rest) zs

module _ {W : Type 0} (process : Process W) (opts : Options) (files : List String) where
  -- `runEndpoint` with what `newUploader` returned.
  unfoldable pub run_uploader : Result (Uploader W) → Endpoint → W → Log
  run_uploader (fail e) ep world =
      if opts.dry_run
      then Action.event (dry_run ep.name 0 (some e)) ∷ []
      else fail_all_files ep files e
  run_uploader (ok up) ep world =
      if opts.dry_run
      then (run_dry_run process up ep files (record { world = world; log = [] })).log
      else (run process up ep opts files (new_worker world)).log

module _ {W : Type 0} (process : Process W) (new_uploader : Protocol → Result (Uploader W))
    (opts : Options) (files : List String) where
  unfoldable pub run_endpoint : Endpoint → W → Log
  run_endpoint ep world = run_uploader process opts files (new_uploader ep.protocol) ep world

  -- The events that `Upload` delivers before its channel closes.
  abbrev pub Delivered : List (Endpoint × W) → List UploadEvent → Type 0
  Delivered endpoints events =
      Shuffles (map (λ (ep, world). sent (run_endpoint ep world)) endpoints) events
