-- ===== src/Transports/Adapter.antt =====
-- transports.go: the adapter between the engine and the clients of internal/transport.
use uploadfun.Base.{
  ℕ, ℤ, String, ◌<>◌, ◌==◌, Bool, true, List, [], Option, none, some, Err, root, other, Result, ok,
  fail, if◌then◌else◌,
}
use uploadfun.Base.Text.{quote}
use uploadfun.Upload.{Endpoint, Protocol, protocol_ftp, protocol_ftps, protocol_sftp}
use uploadfun.Dispatch.Effects.{Uploader, Process}

-- `remoteClient`. `upload` is given the remote name, the path of the open local file that it reads,
-- and the file's size; it returns the calls of its `progress` callback.
pub record RemoteClient (W : Type 0) : Type 0 where
  pub close : W → Option Err × W
  pub delete : String → W → Option Err × W
  pub upload : String → String → ℕ → W → List (ℕ × ℕ) × Option Err × W
  pub verify : String → String → W → String × Option Err × W

-- `os.Open`, `File.Stat` for the size, and `File.Close`, by the path of the file.
pub record LocalFiles (W : Type 0) : Type 0 where
  pub open_file : String → W → Option Err × W
  pub stat_size : String → W → Result ℕ × W
  pub close_file : String → W → W

-- The world with the field `client` of `transportUploader`. A call of a method on a nil client is a
-- panic of the program, after which nothing runs.
pub record Adapted (W : Type 0) : Type 0 where
  pub world : W
  pub client : Option (RemoteClient W)
  pub panicked : Bool

-- The field `dial`. The timeout is that of the context.
abbrev pub Dial : Type 0 → Type 0
Dial W = ℤ → Endpoint → W → Result (RemoteClient W) × W

-- The three dial functions of internal/transport, as transports.go calls them for an endpoint.
pub record Dialers (W : Type 0) : Type 0 where
  pub dial_ftp : Dial W
  pub dial_ftps : Dial W
  pub dial_sftp : Dial W

module _ {W : Type 0} where
  unfoldable pub panic : Adapted W → Adapted W
  panic u = record u { panicked = true }

  unfoldable pub connect_with : Result (RemoteClient W) → W → Adapted W → Option Err × Adapted W
  connect_with (fail e) world u = (some e, record u { world = world })
  connect_with (ok client) world u = (none, record u { world = world; client = some client })

  unfoldable pub close_client : Adapted W → Option Err × Adapted W
  close_client u = elim u.client [
    | none ↦ (none, panic u)
    | some client ↦ let (err, world) = client.close u.world in (err, record u { world = world })
  ]

  unfoldable pub delete_remote : String → Adapted W → Option Err × Adapted W
  delete_remote remote u = elim u.client [
    | none ↦ (none, panic u)
    | some client ↦
        let (err, world) = client.delete remote u.world in (err, record u { world = world })
  ]

  unfoldable pub verify_remote : String → String → Adapted W → String × Option Err × Adapted W
  verify_remote file remote u = elim u.client [
    | none ↦ ("", none, panic u)
    | some client ↦
        let (method, err, world) = client.verify file remote u.world in
        (method, err, record u { world = world })
  ]

  -- The last line of `Upload`, with its deferred close.
  unfoldable pub upload_open :
      LocalFiles W → String → String → ℕ → Adapted W → List (ℕ × ℕ) × Option Err × Adapted W
  upload_open files file remote size u = elim u.client [
    | none ↦ ([], none, panic u)
    | some client ↦
        let (steps, err, world) = client.upload remote file size u.world in
        (steps, err, record u { world = files.close_file file world })
  ]

  unfoldable pub upload_local :
      LocalFiles W → String → String → Adapted W → List (ℕ × ℕ) × Option Err × Adapted W
  upload_local files file remote u =
      let (open_err, world1) = files.open_file file u.world in
      elim open_err [
        | some e ↦ ([], some e, record u { world = world1 })
        | none ↦
            let (info, world2) = files.stat_size file world1 in
            elim info [
              | fail e ↦ ([], some e, record u { world = files.close_file file world2 })
              | ok size ↦ upload_open files file remote size (record u { world = world2 })
            ]
      ]

  -- `&transportUploader{dial: dial}`
  unfoldable pub transport_uploader : LocalFiles W → Dial W → Uploader (Adapted W)
  transport_uploader files dial = record {
    connect = λ timeout ep u.
        let (result, world) = dial timeout ep u.world in connect_with result world u;
    disconnect = close_client;
    delete = delete_remote;
    upload = upload_local files;
    verify = verify_remote;
  }

  unfoldable pub new_real_uploader :
      LocalFiles W → Dialers W → Protocol → Result (Uploader (Adapted W))
  new_real_uploader files dialers protocol =
      if protocol == protocol_ftp
      then ok (transport_uploader files dialers.dial_ftp)
      else if protocol == protocol_ftps
      then ok (transport_uploader files dialers.dial_ftps)
      else if protocol == protocol_sftp
      then ok (transport_uploader files dialers.dial_sftp)
      else fail (root other ("no transport registered for protocol " <> quote protocol))

  -- A process that has no access to the client.
  unfoldable pub around : Process W → Process (Adapted W)
  around process = record {
    ctx_err = λ u. let (err, world) = process.ctx_err u.world in (err, record u { world = world });
    now = λ u. let (t, world) = process.now u.world in (t, record u { world = world });
    sleep = λ delay u. record u { world = process.sleep delay u.world };
    create_temp = λ u.
        let (err, name, world) = process.create_temp u.world in
        (err, name, record u { world = world });
    write_string = λ name text u.
        let (err, world) = process.write_string name text u.world in
        (err, record u { world = world });
    remove = λ name u. record u { world = process.remove name u.world };
    random_bytes = λ u.
        let (bytes, world) = process.random_bytes u.world in (bytes, record u { world = world });
  }
