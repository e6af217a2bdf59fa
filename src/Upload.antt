-- ===== src/Upload.antt =====
-- uploadfun.go: the endpoint, the options and the vocabulary of events.
use uploadfun.Base.{ℕ, ℤ, pos, ◌*◌, String, Bool, List, Option, Err}

-- `time.Duration` counts nanoseconds.
abbrev pub second : ℕ
second = 1_000_000_000

abbrev pub default_attempts : ℤ
default_attempts = pos 3

abbrev pub default_retry_delay : ℤ
default_retry_delay = pos (2 * second)

abbrev pub default_connect_timeout : ℤ
default_connect_timeout = pos (30 * second)

abbrev pub default_stall_timeout : ℤ
default_stall_timeout = pos (300 * second)

abbrev pub default_max_consecutive_connect_failures : ℤ
default_max_consecutive_connect_failures = pos 3

-- `type Protocol string` and its constants
abbrev pub Protocol : Type 0
Protocol = String

abbrev pub protocol_ftp : Protocol
protocol_ftp = "ftp"

abbrev pub protocol_ftps : Protocol
protocol_ftps = "ftps"

abbrev pub protocol_sftp : Protocol
protocol_sftp = "sftp"

-- `type OverwriteMode string` and its constants
abbrev pub OverwriteMode : Type 0
OverwriteMode = String

abbrev pub overwrite_delete_first : OverwriteMode
overwrite_delete_first = "delete-first"

abbrev pub overwrite_direct : OverwriteMode
overwrite_direct = "direct"

pub record Endpoint : Type 0 where
  pub name : String
  pub protocol : Protocol
  pub host : String
  pub port : ℤ
  pub username : String
  pub password : String
  pub private_key : String
  pub overwrite : OverwriteMode
  pub insecure_skip_verify : Bool
  pub attempts : ℤ
  pub retry_delay : ℤ
  pub connect_timeout : ℤ
  pub stall_timeout : ℤ
  pub max_consecutive_connect_failures : ℤ

pub record Options : Type 0 where
  pub no_verify : Bool
  pub dry_run : Bool

-- The arguments stand in the order of the source's fields. `FileErrorEvent.Err` is never nil.
pub data UploadEvent : Type 0 where
  file_start : (endpoint file : String) (attempt : ℕ) → UploadEvent
  progress : (endpoint file : String) (bytes_sent total_bytes : ℕ) → UploadEvent
  file_success : (endpoint file verify_method : String) (elapsed : ℤ) → UploadEvent
  file_error : (endpoint file : String) (attempt : ℕ) (reason : String) (err : Err) → UploadEvent
  endpoint_unreachable :
      (endpoint : String) (consecutive_failures : ℕ) (skipped_files : List String) → UploadEvent
  endpoint_given_up : (endpoint reason : String) (skipped_files : List String) → UploadEvent
  endpoint_done : (endpoint : String) (succeeded failed : ℕ) (elapsed : ℤ) → UploadEvent
  dry_run : (endpoint : String) (files : ℕ) (err : Option Err) → UploadEvent
