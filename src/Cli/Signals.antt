-- ===== src/Cli/Signals.antt =====
-- cmd/uploadfun/main.go: `main` and `handleSignals`, two goroutines beside the signals that arrive.
use uploadfun.Base.{
  ℕ, suc, ◌+◌, ◌-◌, ◌≤◌, ◌<◌, ◌≡◌, refl, ◌⊎◌, inl, inr, Bool, true, false, Option, none, some,
  arith,
}

abbrev pub exit_signal_abort : ℕ
exit_signal_abort = 130

-- The size of the channel `sigCh`.
abbrev pub channel_size : ℕ
channel_size = 2

-- Where `handleSignals` waits: for the first signal, or for the second.
pub data Handler : Type 0 where
  first second : Handler

-- `arrived` counts the signals that were sent to the process; `buffered` those in the channel.
pub record Running : Type 0 where
  pub arrived : ℕ
  pub buffered : ℕ
  pub handler : Handler
  pub canceled : Bool
  pub exit_code : Option ℕ

-- `main`, before any signal.
abbrev pub started : Running
started = record { arrived = 0; buffered = 0; handler = first; canceled = false; exit_code = none }

-- `handleSignals` takes a signal from the channel.
unfoldable pub handle : Handler → Running → Running
handle first s = record s { handler = second; canceled = true }
handle second s = record s { exit_code = some exit_signal_abort }

unfoldable pub take_signal : Running → Running
take_signal s = handle s.handler (record s { buffered = s.buffered - 1 })

-- What happens while the process runs: a signal arrives and is put into the channel, or is lost where
-- the channel is full, as `signal.Notify` documents; `handleSignals` takes one; or `run` returns.
pub data Step : Running → Running → Type 0 where
  arrive :
      {s : Running}
      → s.exit_code ≡ none
      → s.buffered < channel_size
      → Step s (record s { arrived = suc s.arrived; buffered = suc s.buffered })
  lose :
      {s : Running}
      → s.exit_code ≡ none
      → channel_size ≤ s.buffered
      → Step s (record s { arrived = suc s.arrived })
  take : {s : Running} → s.exit_code ≡ none → 1 ≤ s.buffered → Step s (take_signal s)
  finish :
      {s : Running} {code : ℕ}
      → s.exit_code ≡ none
      → code ≤ 3
      → Step s (record s { exit_code = some code })

pub data Reach : Running → Type 0 where
  start : Reach started
  next : {s t : Running} → Reach s → Step s t → Reach t

-- The signals that the handler has taken before the one it waits for.
abbrev taken : Handler → ℕ
taken first = 0
taken second = 1

abbrev is_second : Handler → Bool
is_second first = false
is_second second = true

-- How the process may have ended.
abbrev pub Ended : Option ℕ → ℕ → Type 0
Ended none arrived = Unit {0}
Ended (some code) arrived = (code ≤ 3) ⊎ ((code ≡ exit_signal_abort) × (2 ≤ arrived))

record IsSound (s : Running) : Type 0 where
  canceled : s.canceled ≡ is_second s.handler
  counted : s.exit_code ≡ none → taken s.handler + s.buffered ≤ s.arrived
  waiting_one : s.exit_code ≡ none → 1 ≤ s.arrived → 1 ≤ taken s.handler + s.buffered
  waiting : s.exit_code ≡ none → 2 ≤ s.arrived → 2 ≤ taken s.handler + s.buffered
  arrived : s.canceled ≡ true → 1 ≤ s.arrived
  ended : Ended s.exit_code s.arrived

take_signal-IsSound :
    (s : Running) → s.exit_code ≡ none → 1 ≤ s.buffered → IsSound s → IsSound (take_signal s)
unfolding take_signal handle
take_signal-IsSound s running some_signal h = ground arith

Step-IsSound : {s t : Running} → Step s t → IsSound s → IsSound t
Step-IsSound (arrive running room) h = ground arith
Step-IsSound (lose running full) h = ground arith
Step-IsSound {s} (take running some_signal) h = take_signal-IsSound s running some_signal h
Step-IsSound (finish running code) h = ground arith

Reach-IsSound : {s : Running} → Reach s → IsSound s
Reach-IsSound start = ground arith
Reach-IsSound (next r st) = Step-IsSound st (Reach-IsSound r)

-- In every state that the process can reach, the context is cancelled only after a signal, and if the
-- process has ended, it is with a code of at most 3, from `run`, or with 130 after two signals.
pub Reach-Ended :
    (s : Running) → Reach s → (s.canceled ≡ true → 1 ≤ s.arrived) × Ended s.exit_code s.arrived
Reach-Ended s r = let h = Reach-IsSound r in (h.arrived, h.ended)

-- The handler with two signals behind it, or in the channel, has not far to go.
abort_from :
    (handler : Handler) (s : Running)
    → s.handler ≡ handler
    → s.exit_code ≡ none
    → 2 ≤ taken handler + s.buffered
    → Reach s
    → (t : Running) × Reach t
      × (t.exit_code ≡ some exit_signal_abort)
      × ((t ≡ take_signal s) ⊎ (t ≡ take_signal (take_signal s)))
unfolding take_signal handle
abort_from second s at running two r =
    (take_signal s, next r (take running (omega arith)), ground arith, inl refl)
abort_from first s at running two r =
    let s1 = take_signal s in
    let r1 : Reach s1 = next r (take running (omega arith)) in
    (take_signal s1, next r1 (take (ground arith) (ground arith)), ground arith, inr refl)

-- A process to which two signals were sent, and that has not ended, ends with 130 as soon as
-- `handleSignals` has taken what is in the channel, at most twice; no other signal is needed, and
-- nothing that `run` does.
pub Reach-abort :
    (s : Running)
    → Reach s
    → s.exit_code ≡ none
    → 2 ≤ s.arrived
    → (t : Running) × Reach t
      × (t.exit_code ≡ some exit_signal_abort)
      × ((t ≡ take_signal s) ⊎ (t ≡ take_signal (take_signal s)))
Reach-abort s r running two =
    abort_from s.handler s refl running ((Reach-IsSound r).waiting running two) r
