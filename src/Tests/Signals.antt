-- ===== src/Tests/Signals.antt =====
-- The goroutine of `handleSignals` at concrete signals.
use uploadfun.Base.{◌≡◌, refl, ◌≤◌, ◌⊎◌, some, true, arith}
use uploadfun.Cli.Signals.{
  exit_signal_abort, Running, started, take_signal, arrive, take, Reach, start, next, Ended,
  Reach-Ended, Reach-abort,
}

abbrev interrupted : Running
interrupted = record started { arrived = 2; buffered = 2 }

Reach-interrupted : Reach interrupted
Reach-interrupted = next (next start (arrive refl (omega arith))) (arrive refl (omega arith))

Reach-abort_example :
    (t : Running) × Reach t
    × (t.exit_code ≡ some exit_signal_abort)
    × ((t ≡ take_signal interrupted) ⊎ (t ≡ take_signal (take_signal interrupted)))
Reach-abort_example = Reach-abort interrupted Reach-interrupted refl (omega arith)

-- After the first signal is taken.
abbrev stopping : Running
stopping = take_signal interrupted

Reach-Ended_example :
    (stopping.canceled ≡ true → 1 ≤ stopping.arrived) × Ended stopping.exit_code stopping.arrived
Reach-Ended_example = Reach-Ended stopping (next Reach-interrupted (take refl (omega arith)))
