-- ===== src/Cli/Json.antt =====
-- cmd/uploadfun/printer.go: the JSON object that stands for an event under `--json`.
use uploadfun.Base.{ℕ, ℤ, String, ◌==◌, List, [], ◌∷◌, some, if◌then◌else◌, message}
use uploadfun.Upload.{
  UploadEvent, file_start, progress, file_success, file_error, endpoint_unreachable,
  endpoint_given_up, endpoint_done, dry_run,
}

-- A value of the JSON object that stands for an event. `seconds` is a duration, written as seconds
-- with two decimals.
pub data Json : Type 0 where
  str : String → Json
  num : ℕ → Json
  seconds : ℤ → Json
  strs : List String → Json

-- One line of output: the text, or a JSON object by its fields.
pub data Line : Type 0 where
  text : String → Line
  object : List (String × Json) → Line

unfoldable pub event_type_name : UploadEvent → String
event_type_name (file_start _ _ _) = "file_start"
event_type_name (progress _ _ _ _) = "progress"
event_type_name (file_success _ _ _ _) = "file_success"
event_type_name (file_error _ _ _ _ _) = "file_error"
event_type_name (endpoint_unreachable _ _ _) = "endpoint_unreachable"
event_type_name (endpoint_given_up _ _ _) = "endpoint_given_up"
event_type_name (endpoint_done _ _ _ _) = "endpoint_done"
event_type_name (dry_run _ _ _) = "dry_run"

-- The fields that the `json` tags of an event give it. `verifyMethod` is left out where it is empty.
unfoldable pub event_fields : UploadEvent → List (String × Json)
event_fields (file_start endpoint file attempt) =
    ("endpoint", str endpoint) ∷ ("file", str file) ∷ ("attempt", num attempt) ∷ []
event_fields (progress endpoint file sent total) =
    ("endpoint", str endpoint)
    ∷ ("file", str file)
    ∷ ("bytesSent", num sent)
    ∷ ("totalBytes", num total)
    ∷ []
event_fields (file_success endpoint file method elapsed) =
    let tail : List (String × Json) = ("durationSec", seconds elapsed) ∷ [] in
    ("endpoint", str endpoint)
    ∷ ("file", str file)
    ∷ (if method == "" then tail else ("verifyMethod", str method) ∷ tail)
event_fields (file_error endpoint file attempt reason err) =
    ("endpoint", str endpoint)
    ∷ ("file", str file)
    ∷ ("attempt", num attempt)
    ∷ ("reason", str reason)
    ∷ []
event_fields (endpoint_unreachable endpoint n skipped) =
    ("endpoint", str endpoint)
    ∷ ("consecutiveFailures", num n)
    ∷ ("skippedFiles", strs skipped)
    ∷ []
event_fields (endpoint_given_up endpoint reason skipped) =
    ("endpoint", str endpoint) ∷ ("reason", str reason) ∷ ("skippedFiles", strs skipped) ∷ []
event_fields (endpoint_done endpoint succeeded failed elapsed) =
    ("endpoint", str endpoint)
    ∷ ("succeeded", num succeeded)
    ∷ ("failed", num failed)
    ∷ ("durationSec", seconds elapsed)
    ∷ []
event_fields (dry_run endpoint files err) = ("endpoint", str endpoint) ∷ ("files", num files) ∷ []

-- What `jsonPayload` adds to the fields of an event.
unfoldable pub json_payload : UploadEvent → List (String × Json)
json_payload (dry_run endpoint files (some e)) =
    ("error", str (message e))
    ∷ ("type", str (event_type_name (dry_run endpoint files (some e))))
    ∷ event_fields (dry_run endpoint files (some e))
json_payload ev = ("type", str (event_type_name ev)) ∷ event_fields ev
