-- ===== src/Harness/Docker.antt =====
-- internal/testdocker: containers, and the wait for a port.
use uploadfun.Base.{
  ℕ, zero, suc, ◌+◌, ◌/◌, ltb, String, ◌<>◌, Bool, true, false, not, is_some, List, [], ◌∷◌, none,
  some, message, ok, fail,
}
use uploadfun.Upload.{second}
use uploadfun.Harness.Machine.{
  Host, out_of_rounds, Action, pure, ◌>>=◌, ◌>>◌, exit_with, exec, dial_port, close_port, now,
  sleep,
}

-- `%v` of a slice of texts.
unfoldable pub show_words : List String → String
show_words [] = ""
show_words (word ∷ []) = word
show_words (word ∷ next ∷ words) = word <> " " <> show_words (next ∷ words)

-- The pause between two dials of `WaitForPort`.
abbrev pub dial_pause : ℕ
dial_pause = 300_000_000

module _ {W : Type 0} (host : Host W) where
  unfoldable pub available : Action W Bool
  available = do (out, err) ← exec host ("docker" ∷ "info" ∷ []); pure (not (is_some err))

  unfoldable pub remove : String → Action W (Unit {0})
  remove name = do _ ← exec host ("docker" ∷ "rm" ∷ "-f" ∷ name ∷ []); pure tt

  unfoldable pub run : String → List String → Action W (Unit {0})
  run name run_args = do
    remove name
    let args = "run" ∷ "-d" ∷ "--name" ∷ name ∷ run_args
    (out, err) ← exec host ("docker" ∷ args)
    elim err [
      | none ↦ pure tt
      | some e ↦
          exit_with
            ("docker [" <> show_words args <> "] failed: " <> message e <> "\n" <> out <> "\n")
    ]

  unfoldable pub wait_rounds : ℕ → String → (deadline : ℕ) → Action W (Unit {0})
  wait_rounds zero address deadline = λ m. out_of_rounds
  wait_rounds (suc rounds) address deadline = do
    t ← now host
    elim (ltb t deadline) [
      | false ↦ exit_with ("timed out waiting for " <> address <> " to accept connections\n")
      | true ↦ do
        answer ← dial_port host address second
        elim answer [
          | ok conn ↦ close_port host conn
          | fail e ↦ do sleep host dial_pause; wait_rounds rounds address deadline
        ]
    ]

  -- The rounds are as many as there can be pauses before the deadline, and one for the test that ends
  -- the loop, and one for a pause that is begun.
  unfoldable pub wait_for_port : String → (timeout : ℕ) → Action W (Unit {0})
  wait_for_port address timeout = do
    t ← now host
    wait_rounds (timeout / dial_pause + 2) address (t + timeout)
