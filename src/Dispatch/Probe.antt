-- ===== src/Dispatch/Probe.antt =====
-- dispatch.go: the dry run of one endpoint, `runDryRun`, with the probe file that it writes.
use uploadfun.Base.{
  ℕ, String, ◌<>◌, List, ◌∷◌, length, Option, none, some, Err, wrap, Result, ok, fail,
}
use uploadfun.Base.Text.{show_hex, quote}
use uploadfun.Upload.{Endpoint, UploadEvent, dry_run}
use uploadfun.Dispatch.Effects.{Uploader, Process, Action, Log}

-- The world and the log of a dry run.
pub record Trial (W : Type 0) : Type 0 where
  pub world : W
  pub log : Log

abbrev pub add : {W : Type 0} → Action → Trial W → Trial W
add a t = record t { log = a ∷ t.log }

unfoldable pub remote_name_of : List ℕ → String
remote_name_of bytes = "uploadfun-probe-" <> show_hex bytes <> ".tmp"

-- The event that a probe with this result leads to.
unfoldable pub outcome : Endpoint → List String → Option Err → UploadEvent
outcome ep files (some e) = dry_run ep.name 0 (some e)
outcome ep files none = dry_run ep.name (length files) none

module _ {W : Type 0} (process : Process W) (up : Uploader W) where
  unfoldable pub new_probe_file : Trial W → Trial W × Result String
  new_probe_file t =
      let (create_err, name, world1) = process.create_temp t.world in
      let t1 : Trial W = record {
        world = world1;
        log = Action.create_temp name create_err ∷ t.log;
      } in
      elim create_err [
        | some e ↦ (t1, fail e)
        | none ↦
            let (write_err, world2) =
              process.write_string name "uploadfun dry-run write probe\n" world1 in
            let t2 : Trial W = record {
              world = world2;
              log = Action.write_temp name write_err ∷ t1.log;
            } in
            elim write_err [
              | some e ↦ (
                record {
                  world = process.remove name world2;
                  log = Action.remove_temp name ∷ t2.log;
                },
                fail e,
              )
              | none ↦ (t2, ok name)
            ]
      ]

  unfoldable pub probe_remote_name : Trial W → Trial W × String
  probe_remote_name t =
      let (bytes, world) = process.random_bytes t.world in
      (record t { world = world }, remote_name_of bytes)

  -- The upload and the delete of the probe.
  unfoldable pub round_trip : String → String → Trial W → Trial W × Option Err
  round_trip local remote t =
      let (_, upload_err, world1) = up.upload local remote t.world in
      let t1 : Trial W = record {
        world = world1;
        log = Action.upload local remote upload_err ∷ t.log;
      } in
      elim upload_err [
        | some e ↦ (t1, some (wrap "write probe: " e))
        | none ↦
            let (delete_err, world2) = up.delete remote world1 in
            let t2 : Trial W = record {
              world = world2;
              log = Action.delete remote delete_err ∷ t1.log;
            } in
            elim delete_err [
              | some e ↦
                  let text = "write probe cleanup: left " <> quote remote <> " on server: " in
                  (t2, some (wrap text e))
              | none ↦ (t2, none)
            ]
      ]

  unfoldable pub probe_writable : Trial W → Trial W × Option Err
  probe_writable t =
      let (t1, made) = new_probe_file t in
      elim made [
        | fail e ↦ (t1, some e)
        | ok local ↦
            let (t2, remote) = probe_remote_name t1 in
            let (t3, err) = round_trip local remote t2 in
            (
              record {
                world = process.remove local t3.world;
                log = Action.remove_temp local ∷ t3.log;
              },
              err,
            )
      ]

  unfoldable pub run_dry_run : Endpoint → List String → Trial W → Trial W
  run_dry_run ep files t =
      let (connect_err, world1) = up.connect ep.connect_timeout ep t.world in
      let t1 : Trial W = record { world = world1; log = Action.connect connect_err ∷ t.log } in
      elim connect_err [
        | some e ↦ add (Action.event (dry_run ep.name 0 (some e))) t1
        | none ↦
            let (t2, probe_err) = probe_writable t1 in
            let t3 = add (Action.event (outcome ep files probe_err)) t2 in
            let (_, world4) = up.disconnect t3.world in
            record { world = world4; log = Action.disconnect ∷ t3.log }
      ]
