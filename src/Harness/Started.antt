-- ===== src/Harness/Started.antt =====
-- internal/testservers: what is up when a server was started.
use uploadfun.Base.{ℕ, ◌+◌, ◌≤◌, ◌≡◌, refl, ap, String, true, List, [], ◌∷◌, none, arith}
use uploadfun.Harness.Machine.{
  Host, Machine, Deed, ran, made_folder, wrote, dialled, slept, printed, Outcome, done, exited,
  out_of_rounds, Action, pure, ◌>>◌, exec,
}
use uploadfun.Harness.Docker.{remove, run, wait_for_port}
use uploadfun.Harness.Servers.{
  PureFtpdOptions, AtmozSftpOptions, pure_ftpd_args, atmoz_sftp_args, start_timeout, local_address,
  scan_attempts, populate_known_hosts, start_pure_ftpd, start_atmoz_sftp,
}
use uploadfun.Harness.Waiting.{
  IsTicking, is_accepted, before_wait, IsWaited, wait_for_port-IsWaited,
}
use uploadfun.Harness.Keys.{commands, IsWritten, populate_known_hosts-IsPopulated}

-- The last deeds: the container of that name was removed, if there was one, and then started.
abbrev pub IsFresh : (name : String) (args : List String) → List Deed → List Deed → Type 0
IsFresh name args before (ran start _ none ∷ ran stop _ _ ∷ deeds) =
    (start ≡ "docker" ∷ "run" ∷ "-d" ∷ "--name" ∷ name ∷ args)
    × (stop ≡ "docker" ∷ "rm" ∷ "-f" ∷ name ∷ [])
    × (deeds ≡ before)
IsFresh name args before _ = ⊥

module _ {W : Type 0} (host : Host W) where
  abbrev pub Starts :
      (name : String) (args : List String) → List Deed → Outcome (Unit {0}) W → Type 0
  Starts name args before (done _ m) = IsFresh name args before m.deeds
  Starts name args before (exited code m) = code ≡ 1
  Starts name args before out_of_rounds = ⊥

  run-Starts :
      (name : String) (args : List String) (m : Machine W)
      → Starts name args m.deeds (run host name args m)
  unfolding run remove exec
  run-Starts name args m = ground arith

  -- The server accepts connections in a fresh container, and the clean-up removes this.
  abbrev pub IsStarted :
      (name : String) (args : List String) (address : String)
      → List Deed
      → Outcome (Action W (Unit {0})) W
      → Type 0
  IsStarted name args address before (done cleanup m) =
      (is_accepted address m.deeds ≡ true)
      × IsFresh name args before (before_wait m.deeds)
      × (cleanup ≡ remove host name)
  IsStarted name args address before (exited code m) = code ≡ 1
  IsStarted name args address before out_of_rounds = ⊥

  -- `StartPureFTPD` ends, with a fresh container that was started with its arguments and accepts
  -- connections, or with the exit code 1.
  pub start_pure_ftpd-IsStarted :
      (opts : PureFtpdOptions) (time : W → ℕ) (m : Machine W)
      → IsTicking host time
      → IsStarted opts.container_name
          (pure_ftpd_args opts)
          (local_address opts.control_port)
          m.deeds
          (start_pure_ftpd host opts m)
  unfolding start_pure_ftpd run remove exec
  start_pure_ftpd-IsStarted opts time m ticking =
      let name = opts.container_name in
      let stop = "docker" ∷ "rm" ∷ "-f" ∷ name ∷ [] in
      let start = "docker" ∷ "run" ∷ "-d" ∷ "--name" ∷ name ∷ pure_ftpd_args opts in
      let (out1, err1, world1) = host.exec stop m.world in
      let (out2, err2, world2) = host.exec start world1 in
      let m2 : Machine W = record {
        world = world2;
        deeds = ran start out2 err2 ∷ ran stop out1 err1 ∷ m.deeds;
      } in
      ground (
        arith,
        wait_for_port-IsWaited host time (local_address opts.control_port) start_timeout m2 ticking,
      )

  commands-before_wait : (deeds : List Deed) → commands (before_wait deeds) ≡ commands deeds
  commands-before_wait [] = refl
  commands-before_wait (dialled _ _ ∷ deeds) = commands-before_wait deeds
  commands-before_wait (slept _ ∷ deeds) = commands-before_wait deeds
  commands-before_wait (ran _ _ _ ∷ deeds) = refl
  commands-before_wait (made_folder _ _ ∷ deeds) = refl
  commands-before_wait (wrote _ _ _ ∷ deeds) = refl
  commands-before_wait (printed _ ∷ deeds) = refl

  -- The keys of the server are known, and the clean-up removes its container.
  abbrev pub IsKnown : AtmozSftpOptions → (limit : ℕ) → Outcome (Action W (Unit {0})) W → Type 0
  IsKnown opts limit (done cleanup m) =
      IsWritten opts.port opts.known_hosts_home m.deeds
      × (commands m.deeds ≤ limit)
      × (cleanup ≡ remove host opts.container_name)
  IsKnown opts limit (exited code m) = code ≡ 1
  IsKnown opts limit out_of_rounds = ⊥

  populated-IsKnown :
      (opts : AtmozSftpOptions) (limit : ℕ) (m : Machine W)
      → commands m.deeds + scan_attempts ≤ limit
      → IsKnown opts limit (
          (do
            populate_known_hosts host opts.port opts.known_hosts_home
            pure (remove host opts.container_name))
            m)
  populated-IsKnown opts limit m few =
      ground (arith, populate_known_hosts-IsPopulated host opts.port opts.known_hosts_home m)

  waited-IsKnown :
      (opts : AtmozSftpOptions) (time : W → ℕ) (address : String) (deadline : ℕ)
      (before : List Deed) (limit : ℕ) (out : Outcome (Unit {0}) W)
      → IsWaited host time address deadline before out
      → commands before + scan_attempts ≤ limit
      → IsKnown opts limit (elim out [
        | done _ m ↦
            (do
              populate_known_hosts host opts.port opts.known_hosts_home
              pure (remove host opts.container_name))
              m
        | exited code m ↦ exited code m
        | out_of_rounds ↦ out_of_rounds
      ])
  waited-IsKnown opts time address deadline before limit (done _ m) (accepted, same) few =
      populated-IsKnown opts limit m
        (omega (arith, commands-before_wait m.deeds, commands-before_wait before, ap commands same))
  waited-IsKnown opts time address deadline before limit (exited code m) h few = h.0
  waited-IsKnown opts time address deadline before limit out_of_rounds h few = h

  -- `StartAtmozSFTP` ends. If it returns, after at most seven commands, the known hosts below the given
  -- home hold what a scan of the server's port returned, which is not empty, and what is returned
  -- removes the server's container; if not, it ends the process with 1. The condition is that the
  -- clock does not go back and runs on during a pause.
  pub start_atmoz_sftp-IsKnown :
      (opts : AtmozSftpOptions) (time : W → ℕ) (m : Machine W)
      → IsTicking host time
      → IsKnown opts (commands m.deeds + 7) (start_atmoz_sftp host opts m)
  unfolding start_atmoz_sftp run remove exec
  start_atmoz_sftp-IsKnown opts time m ticking =
      let name = opts.container_name in
      let stop = "docker" ∷ "rm" ∷ "-f" ∷ name ∷ [] in
      let start = "docker" ∷ "run" ∷ "-d" ∷ "--name" ∷ name ∷ atmoz_sftp_args opts in
      let (out1, err1, world1) = host.exec stop m.world in
      let (out2, err2, world2) = host.exec start world1 in
      let m2 : Machine W = record {
        world = world2;
        deeds = ran start out2 err2 ∷ ran stop out1 err1 ∷ m.deeds;
      } in
      let address = local_address opts.port in
      let waited = wait_for_port-IsWaited host time address start_timeout m2 ticking in
      ground (
        arith,
        waited-IsKnown opts time address (time world2 + start_timeout) m2.deeds
            (commands m.deeds + 7) (wait_for_port host address start_timeout m2) waited
            (omega arith),
      )
