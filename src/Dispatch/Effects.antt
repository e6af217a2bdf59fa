-- ===== src/Dispatch/Effects.antt =====
-- What the engine of dispatch.go acts on: the `uploader` interface, the process around it (context,
-- clock, temporary files), and the log of what a run did.
use uploadfun.Base.{ℕ, ℤ, String, Bool, false, List, [], ◌∷◌, Option, none, Err}
use uploadfun.Upload.{Endpoint, UploadEvent}

-- The `uploader` interface over a world `W`, which every call may change. An `error` that may be nil
-- is an `Option Err`. `connect` is given the timeout of its context; `upload` returns the calls of
-- its `progress` callback in order, each with the bytes sent and the total.
pub record Uploader (W : Type 0) : Type 0 where
  pub connect : ℤ → Endpoint → W → Option Err × W
  pub disconnect : W → Option Err × W
  pub delete : String → W → Option Err × W
  pub upload : String → String → W → List (ℕ × ℕ) × Option Err × W
  pub verify : String → String → W → String × Option Err × W

-- The process that a worker runs in: `ctx.Err()`, which may find the context cancelled at any call,
-- `time.Now` in nanoseconds, the pause of `sleepRetryDelay`, `os.CreateTemp`, `File.WriteString`,
-- `os.Remove`, and the bytes of `rand.Read`.
pub record Process (W : Type 0) : Type 0 where
  pub ctx_err : W → Option Err × W
  pub now : W → ℕ × W
  pub sleep : ℤ → W → W
  pub create_temp : W → Option Err × String × W
  pub write_string : String → String → W → Option Err × W
  pub remove : String → W → W
  pub random_bytes : W → List ℕ × W

-- One entry of the log: an event sent on the channel, or a call with what it returned.
pub data Action : Type 0 where
  event : UploadEvent → Action
  poll : (canceled : Bool) → Action
  pause : (delay : ℤ) → Action
  connect : (err : Option Err) → Action
  disconnect : Action
  delete : (remote : String) (err : Option Err) → Action
  upload : (file remote : String) (err : Option Err) → Action
  verify : (file remote method : String) (err : Option Err) → Action
  create_temp : (name : String) (err : Option Err) → Action
  write_temp : (name : String) (err : Option Err) → Action
  remove_temp : (name : String) → Action

-- The newest entry stands first.
abbrev pub Log : Type 0
Log = List Action

-- The events of a log in the order in which they were sent, before those that follow it.
abbrev pub sent_before : Log → List UploadEvent → List UploadEvent
sent_before [] later = later
sent_before (event e ∷ l) later = sent_before l (e ∷ later)
sent_before (_ ∷ l) later = sent_before l later

abbrev pub sent : Log → List UploadEvent
sent l = sent_before l []

-- The fields of `endpointWorker` that change, the world, and the log.
pub record Worker (W : Type 0) : Type 0 where
  pub world : W
  pub log : Log
  pub connected : Bool
  pub consecutive_connect_failures : ℕ
  pub permanent_err : Option Err

-- `&endpointWorker{…}` in a world where nothing is logged.
unfoldable pub new_worker : {W : Type 0} → W → Worker W
new_worker world = record {
  world = world;
  log = [];
  connected = false;
  consecutive_connect_failures = 0;
  permanent_err = none;
}

abbrev pub record_action : {W : Type 0} → Action → Worker W → Worker W
record_action a w = record w { log = a ∷ w.log }

-- `w.events <- e`
abbrev pub emit : {W : Type 0} → UploadEvent → Worker W → Worker W
emit e w = record_action (event e) w
