-- ===== src/Harness/Machine.antt =====
-- The machine that the helpers of the integration tests act on: commands, files, the network, the clock.
use uploadfun.Base.{ℕ, String, List, ◌∷◌, Option, Err, Result}

-- `exec.Command` with `Run`, `Output` or `CombinedOutput`, which return what was printed and the error;
-- `os.MkdirAll`, `os.WriteFile`, `net.DialTimeout`, `Close`, `time.Now` and `time.Sleep`.
pub record Host (W : Type 0) : Type 0 where
  pub exec : List String → W → String × Option Err × W
  pub mkdir_all : (path : String) (perm : ℕ) → W → Option Err × W
  pub write_file : (path text : String) (perm : ℕ) → W → Option Err × W
  pub dial : (address : String) (timeout : ℕ) → W → Result ℕ × W
  pub close : (conn : ℕ) → W → W
  pub now : W → ℕ × W
  pub sleep : ℕ → W → W

-- What is done to the machine, with how it went.
pub data Deed : Type 0 where
  ran : (command : List String) (out : String) (err : Option Err) → Deed
  made_folder : (path : String) (err : Option Err) → Deed
  wrote : (path text : String) (err : Option Err) → Deed
  dialled : (address : String) (answer : Result ℕ) → Deed
  slept : (duration : ℕ) → Deed
  printed : (text : String) → Deed

-- The world, with the deeds, the latest first.
pub record Machine (W : Type 0) : Type 0 where
  pub world : W
  pub deeds : List Deed

-- How a helper ends: it returns, it ends the process by `os.Exit`, or its loop has no rounds left.
pub data Outcome (A W : Type 0) : Type 0 where
  done : A → Machine W → Outcome A W
  exited : (code : ℕ) → Machine W → Outcome A W
  out_of_rounds : Outcome A W

abbrev pub Action : Type 0 → Type 0 → Type 0
Action W A = Machine W → Outcome A W

module _ {W : Type 0} where
  abbrev pub pure : {A : Type 0} → A → Action W A
  pure a m = done a m

  infixl 5 ◌>>=◌ ◌>>◌
  abbrev pub ◌>>=◌ : {A B : Type 0} → Action W A → (A → Action W B) → Action W B
  ◌>>=◌ act f m = elim (act m) [
    | done a m1 ↦ f a m1
    | exited code m1 ↦ exited code m1
    | out_of_rounds ↦ out_of_rounds
  ]

  abbrev pub ◌>>◌ : {B : Type 0} → Action W (Unit {0}) → Action W B → Action W B
  a >> k = a >>= λ _. k

  -- `os.Exit`, after a line on the standard output.
  abbrev pub exit_with : {A : Type 0} → String → Action W A
  exit_with text m = exited 1 (record m { deeds = printed text ∷ m.deeds })

  module _ (host : Host W) where
    unfoldable pub exec : List String → Action W (String × Option Err)
    exec command m =
        let (out, err, world) = host.exec command m.world in
        done (out, err) (record { world = world; deeds = ran command out err ∷ m.deeds })

    unfoldable pub mkdir_all : String → ℕ → Action W (Option Err)
    mkdir_all path perm m =
        let (err, world) = host.mkdir_all path perm m.world in
        done err (record { world = world; deeds = made_folder path err ∷ m.deeds })

    unfoldable pub write_file : String → String → ℕ → Action W (Option Err)
    write_file path text perm m =
        let (err, world) = host.write_file path text perm m.world in
        done err (record { world = world; deeds = wrote path text err ∷ m.deeds })

    unfoldable pub dial_port : String → ℕ → Action W (Result ℕ)
    dial_port address timeout m =
        let (answer, world) = host.dial address timeout m.world in
        done answer (record { world = world; deeds = dialled address answer ∷ m.deeds })

    unfoldable pub close_port : ℕ → Action W (Unit {0})
    close_port conn m = done tt (record m { world = host.close conn m.world })

    unfoldable pub now : Action W ℕ
    now m = let (t, world) = host.now m.world in done t (record m { world = world })

    unfoldable pub sleep : ℕ → Action W (Unit {0})
    sleep duration m =
        done tt (record { world = host.sleep duration m.world; deeds = slept duration ∷ m.deeds })
