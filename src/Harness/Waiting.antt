-- ===== src/Harness/Waiting.antt =====
-- internal/testdocker: `WaitForPort` ends.
use text.Mathlib.TextPositions.{eq_refl}
use uploadfun.Base.{
  ℕ, zero, suc, ◌+◌, ◌*◌, ◌/◌, ◌≤◌, ◌≡◌, String, ◌==◌, Bool, true, false, List, [], ◌∷◌, ok, arith,
}
use uploadfun.Upload.{second}
use uploadfun.Harness.Machine.{
  Host, Machine, Deed, dialled, slept, Outcome, done, exited, out_of_rounds, dial_port, close_port,
  now, sleep,
}
use uploadfun.Harness.Docker.{dial_pause, wait_rounds, wait_for_port}

-- The clock of a host: no call turns it back, and a pause takes as long as it should.
pub record IsTicking {W : Type 0} (host : Host W) (time : W → ℕ) : Type 0 where
  pub reads : (w : W) → (host.now w).0 ≡ time w
  pub after_now : (w : W) → time w ≤ time (host.now w).1
  pub after_sleep : (duration : ℕ) (w : W) → time w + duration ≤ time (host.sleep duration w)
  pub after_dial :
      (address : String) (timeout : ℕ) (w : W) → time w ≤ time (host.dial address timeout w).1

-- The last deed is a dial of the address that was accepted.
abbrev pub is_accepted : String → List Deed → Bool
is_accepted address (dialled a (ok conn) ∷ _) = a == address
is_accepted address _ = false

-- The deeds before the last dials and pauses.
abbrev pub before_wait : List Deed → List Deed
before_wait [] = []
before_wait (dialled _ _ ∷ deeds) = before_wait deeds
before_wait (slept _ ∷ deeds) = before_wait deeds
before_wait (deed ∷ deeds) = deed ∷ deeds

module _ {W : Type 0} (host : Host W) (time : W → ℕ) where
  -- How a wait ends: the address was accepted, or the process, with 1, when the deadline has passed.
  -- Meanwhile there were only dials and pauses.
  abbrev pub IsWaited :
      (address : String) (deadline : ℕ) → List Deed → Outcome (Unit {0}) W → Type 0
  IsWaited address deadline deeds (done _ m) =
      (is_accepted address m.deeds ≡ true) × (before_wait m.deeds ≡ before_wait deeds)
  IsWaited address deadline deeds (exited code m) = (code ≡ 1) × (deadline ≤ time m.world)
  IsWaited address deadline deeds out_of_rounds = ⊥

  wait_rounds-IsWaited :
      (rounds : ℕ) (address : String) (deadline : ℕ) (m : Machine W)
      → IsTicking host time
      → deadline ≤ time m.world + rounds * dial_pause
      → IsWaited address deadline m.deeds (wait_rounds host (suc rounds) address deadline m)
  unfolding wait_rounds now dial_port close_port sleep
  wait_rounds-IsWaited zero address deadline m ticking enough =
      ground (arith, ticking.reads m.world, ticking.after_now m.world)
  wait_rounds-IsWaited (suc rounds) address deadline m ticking enough =
      let w1 = (host.now m.world).1 in
      let (answer, w2) = host.dial address second w1 in
      let m3 : Machine W = record {
        world = host.sleep dial_pause w2;
        deeds = slept dial_pause ∷ dialled address answer ∷ m.deeds;
      } in
      let passed = ticking.after_sleep dial_pause w2 in
      let enough3 : deadline ≤ time m3.world + rounds * dial_pause =
        omega (arith, ticking.after_now m.world, ticking.after_dial address second w1, passed) in
      ground (
        arith,
        ticking.reads m.world,
        ticking.after_now m.world,
        eq_refl address,
        wait_rounds-IsWaited rounds address deadline m3 ticking enough3,
      )

  -- `WaitForPort` ends: it returns when the address has accepted a connection, or ends the process with
  -- 1 when the timeout has passed, and when it returns there were only dials and pauses before; the
  -- condition is that the clock does not go back and runs on during a pause.
  pub wait_for_port-IsWaited :
      (address : String) (timeout : ℕ) (m : Machine W)
      → IsTicking host time
      → IsWaited address (time m.world + timeout) m.deeds (wait_for_port host address timeout m)
  unfolding wait_for_port now
  wait_for_port-IsWaited address timeout m ticking =
      let m1 = record m { world = (host.now m.world).1 } in
      let enough : time m.world + timeout
          ≤ time m1.world + (timeout / dial_pause + 1) * dial_pause =
        omega (arith, ticking.after_now m.world) in
      ground (
        arith,
        ticking.reads m.world,
        wait_rounds-IsWaited (timeout / dial_pause + 1) address (time m.world + timeout) m1 ticking
            enough,
      )
