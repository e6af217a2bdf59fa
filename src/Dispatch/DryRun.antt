-- ===== src/Dispatch/DryRun.antt =====
-- dispatch.go: what a dry run promises.
use uploadfun.Base.{
  ℕ, ◌≡◌, ◌≢◌, true, length, String, Bool, false, ◌||◌, List, [], ◌∷◌, Option, none, some, is_some,
  arith, Err,
}
use uploadfun.Upload.{Endpoint, dry_run}
use uploadfun.Dispatch.Effects.{Uploader, Process, Action, Log, sent}
use uploadfun.Dispatch.Probe.{
  Trial, remote_name_of, outcome, new_probe_file, probe_remote_name, round_trip, probe_writable,
  run_dry_run,
}
use uploadfun.Dispatch.Session.{is_open, IsSession}

-- The temporary files that were made, and those that were removed, the latest first.
abbrev pub created : Log → List String
created [] = []
created (Action.create_temp name none ∷ l) = name ∷ created l
created (_ ∷ l) = created l

abbrev pub removed : Log → List String
removed [] = []
removed (Action.remove_temp name ∷ l) = name ∷ removed l
removed (_ ∷ l) = removed l

-- A call of the log failed: a connect, the making or the writing of a temporary file, an upload, a
-- delete or a verify.
abbrev pub has_failed : Log → Bool
has_failed [] = false
has_failed (Action.connect err ∷ l) = is_some err || has_failed l
has_failed (Action.create_temp _ err ∷ l) = is_some err || has_failed l
has_failed (Action.write_temp _ err ∷ l) = is_some err || has_failed l
has_failed (Action.upload _ _ err ∷ l) = is_some err || has_failed l
has_failed (Action.delete _ err ∷ l) = is_some err || has_failed l
has_failed (Action.verify _ _ _ err ∷ l) = is_some err || has_failed l
has_failed (_ ∷ l) = has_failed l

-- Files are changed on the server under one name only, and what is sent is the one temporary file
-- that was made.
abbrev pub Harmless : String → Action → Log → Type 0
Harmless name (Action.upload local remote _) l = (created l ≡ local ∷ []) × (remote ≡ name)
Harmless name (Action.delete remote _) l = remote ≡ name
Harmless name _ l = Unit {0}

abbrev pub IsHarmless : String → Log → Type 0
IsHarmless name [] = Unit
IsHarmless name (a ∷ l) = Harmless name a l × IsHarmless name l

module _ {W : Type 0} (process : Process W) (up : Uploader W) (ep : Endpoint)
    (files : List String) where
  abbrev trial : W → Log
  trial world = (run_dry_run process up ep files (record { world = world; log = [] })).log

  verdict : W → Option Err
  verdict world =
      let (connect_err, world1) = up.connect ep.connect_timeout ep world in
      let t : Trial W = record { world = world1; log = Action.connect connect_err ∷ [] } in
      elim connect_err [ some e ↦ some e | none ↦ (probe_writable process up t).1 ]

  -- A dry run sends one event. If a connect, the making or the writing of the temporary file, an upload
  -- or a delete failed, that event has an error and counts no file; if none of them failed, it has no
  -- error and counts all the files.
  pub run_dry_run-sent :
      (world : W)
      → (err : Option Err) × (n : ℕ) × (sent (trial world) ≡ dry_run ep.name n err ∷ [])
        × (has_failed (trial world) ≡ true → (n ≡ 0) × (err ≢ none))
        × (has_failed (trial world) ≡ false → (n ≡ length files) × (err ≡ none))
  unfolding run_dry_run probe_writable new_probe_file probe_remote_name round_trip outcome verdict
  run_dry_run-sent world =
      let count = elim (verdict world) as (λ e. ℕ) [ none ↦ length files | some e ↦ 0 ] in
      (verdict world, count, ground arith, ground arith, ground arith)

  probe_bytes : W → List ℕ
  probe_bytes world =
      let (connect_err, world1) = up.connect ep.connect_timeout ep world in
      let t : Trial W = record { world = world1; log = Action.connect connect_err ∷ [] } in
      (process.random_bytes (new_probe_file process up t).0.world).0

  -- A dry run keeps to the protocol of a session and closes the connection; what it uploads is only the
  -- temporary file that it made, it uploads and deletes under one probe name only, and it removes
  -- just the temporary file that it made.
  pub run_dry_run-IsHarmless :
      (world : W)
      → IsSession (trial world)
        × (is_open (trial world) ≡ false)
        × (removed (trial world) ≡ created (trial world))
        × ((bytes : List ℕ) × IsHarmless (remote_name_of bytes) (trial world))
  unfolding run_dry_run probe_writable new_probe_file probe_remote_name round_trip probe_bytes
  run_dry_run-IsHarmless world =
      (ground arith, ground arith, ground arith, (probe_bytes world, ground arith))
