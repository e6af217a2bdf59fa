-- ===== src/Harness/Keys.antt =====
-- internal/testservers: `populateKnownHosts` on every path.
use uploadfun.Base.{
  ℕ, zero, suc, ◌+◌, ◌-◌, ◌≤◌, ◌≡◌, ℤ, String, true, false, List, [], ◌∷◌, Option, none, some, Err,
  arith,
}
use uploadfun.Base.Text.{join_path, is_empty}
use uploadfun.Harness.Machine.{
  Host, Machine, Deed, ran, made_folder, wrote, dialled, slept, printed, Outcome, done, exited,
  out_of_rounds, Action, exit_with, exec, mkdir_all, write_file, sleep,
}
use uploadfun.Harness.Servers.{
  scan_attempts, scan_pause, scan_command, scan_failed, scan_message, scan_keys, write_known_hosts,
  scan_and_write, populate_known_hosts,
}

-- The commands that were run.
abbrev pub commands : List Deed → ℕ
commands [] = 0
commands (ran _ _ _ ∷ deeds) = suc (commands deeds)
commands (_ ∷ deeds) = commands deeds

-- The last deed is the file of the keys, and before it a scan returned them.
abbrev pub IsWritten : (port : ℤ) (home : String) → List Deed → Type 0
IsWritten port home (wrote path keys none ∷ ran command out none ∷ _) =
    (path ≡ join_path (join_path home ".ssh") "known_hosts")
    × (command ≡ scan_command port)
    × (out ≡ keys)
    × (is_empty keys ≡ false)
IsWritten port home _ = ⊥

-- The files that were written.
abbrev pub files_written : List Deed → ℕ
files_written [] = 0
files_written (wrote _ _ none ∷ deeds) = suc (files_written deeds)
files_written (_ ∷ deeds) = files_written deeds

-- The last deed but for a message: the folder could not be made, the last scan failed, or the file could
-- not be written.
abbrev pub IsStuck : (scans : ℕ) → List Deed → Type 0
IsStuck scans (printed _ ∷ made_folder _ (some _) ∷ _) = scans ≡ 0
IsStuck scans (printed _ ∷ slept _ ∷ _) = scans ≡ scan_attempts
IsStuck scans (printed _ ∷ wrote _ _ (some _) ∷ _) = scans ≤ scan_attempts
IsStuck scans _ = ⊥

-- The last deed of a scan that went well is that scan; all of them were made if none did.
abbrev IsScanned : (attempts : ℕ) (port : ℤ) → List Deed → String × Option Err → List Deed → Type 0
IsScanned attempts port before scan (ran command out err ∷ deeds) =
    (command ≡ scan_command port)
    × (scan ≡ (out, err))
    × (scan_failed scan ≡ false)
    × (commands deeds + 1 ≤ commands before + attempts)
    × (files_written deeds ≡ files_written before)
IsScanned attempts port before scan (slept d ∷ deeds) =
    (scan_failed scan ≡ true)
    × (commands deeds ≡ commands before + attempts)
    × (files_written deeds ≡ files_written before)
IsScanned attempts port before scan _ = ⊥

module _ {W : Type 0} where
  abbrev pub IsPopulated : (port : ℤ) (home : String) → List Deed → Outcome (Unit {0}) W → Type 0
  IsPopulated port home deeds (done _ m) =
      IsWritten port home m.deeds
      × (commands m.deeds ≤ commands deeds + scan_attempts)
      × (files_written m.deeds ≡ files_written deeds + 1)
  IsPopulated port home deeds (exited code m) =
      (code ≡ 1)
      × IsStuck (commands m.deeds - commands deeds) m.deeds
      × (files_written m.deeds ≡ files_written deeds)
  IsPopulated port home deeds out_of_rounds = ⊥

  abbrev Scans : (attempts : ℕ) (port : ℤ) → List Deed → Outcome (String × Option Err) W → Type 0
  Scans attempts port before (done scan m) = IsScanned attempts port before scan m.deeds
  Scans attempts port before (exited code m) = ⊥
  Scans attempts port before out_of_rounds = ⊥

module _ {W : Type 0} (host : Host W) where
  scan_keys-Scans :
      (attempts : ℕ) (port : ℤ) (last : String × Option Err) (m : Machine W)
      → Scans (suc attempts) port m.deeds (scan_keys host (suc attempts) port last m)
  unfolding scan_keys exec sleep
  scan_keys-Scans zero port last m = ground arith
  scan_keys-Scans (suc attempts) port last m =
      let (out, err, world) = host.exec (scan_command port) m.world in
      let m1 : Machine W = record {
        world = host.sleep scan_pause world;
        deeds = slept scan_pause ∷ ran (scan_command port) out err ∷ m.deeds;
      } in
      ground (arith, scan_keys-Scans attempts port (out, err) m1)

  -- What `populateKnownHosts` does after the scans.
  abbrev after_scans : (home : String) → String × Option Err → Action W (Unit {0})
  after_scans home scan = elim (scan_failed scan) [
    | true ↦ exit_with (scan_message scan.1)
    | false ↦ write_known_hosts host home scan.0
  ]

  after_scans-IsPopulated :
      (port : ℤ) (home : String) (before : List Deed) (scan : String × Option Err) (world : W)
      (deeds : List Deed)
      → IsScanned scan_attempts port before scan deeds
      → IsPopulated port home before
          (after_scans home scan (record { world = world; deeds = deeds }))
  unfolding write_known_hosts write_file
  after_scans-IsPopulated port home before (out, none) world (ran command text none ∷ deeds) h =
      ground arith
  after_scans-IsPopulated port home before (out, none) world (ran command text (some e) ∷ deeds) h =
      absurd (ground arith)
  after_scans-IsPopulated port home before (out, some e) world (ran command text err ∷ deeds) h =
      absurd (ground arith)
  after_scans-IsPopulated port home before scan world (slept d ∷ deeds) h = ground arith
  after_scans-IsPopulated port home before scan world [] h = absurd h
  after_scans-IsPopulated port home before scan world (made_folder _ _ ∷ _) h = absurd h
  after_scans-IsPopulated port home before scan world (wrote _ _ _ ∷ _) h = absurd h
  after_scans-IsPopulated port home before scan world (dialled _ _ ∷ _) h = absurd h
  after_scans-IsPopulated port home before scan world (printed _ ∷ _) h = absurd h

  Scans-IsPopulated :
      (port : ℤ) (home : String) (before : List Deed) (out : Outcome (String × Option Err) W)
      → Scans scan_attempts port before out
      → IsPopulated port home before (elim out [
        | done scan m ↦ after_scans home scan m
        | exited code m ↦ exited code m
        | out_of_rounds ↦ out_of_rounds
      ])
  Scans-IsPopulated port home before (done scan m) h =
      after_scans-IsPopulated port home before scan m.world m.deeds h
  Scans-IsPopulated port home before (exited code m) h = absurd h
  Scans-IsPopulated port home before out_of_rounds h = absurd h

  pub populate_known_hosts-IsPopulated :
      (port : ℤ) (home : String) (m : Machine W)
      → IsPopulated port home m.deeds (populate_known_hosts host port home m)
  unfolding populate_known_hosts mkdir_all scan_and_write
  populate_known_hosts-IsPopulated port home m =
      let (err, world) = host.mkdir_all (join_path home ".ssh") 0o700 m.world in
      let m1 : Machine W = record {
        world = world;
        deeds = made_folder (join_path home ".ssh") err ∷ m.deeds;
      } in
      ground (
        arith,
        Scans-IsPopulated port home m.deeds (scan_keys host scan_attempts port ("", none) m1)
            (scan_keys-Scans 4 port ("", none) m1),
      )
