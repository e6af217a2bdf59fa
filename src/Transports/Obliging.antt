-- ===== src/Transports/Obliging.antt =====
-- transports.go and dispatch.go: the adapter over clients that do all that they are asked.
use uploadfun.Base.{ℕ, ◌≡◌, ◌⊎◌, inl, inr, refl, ℤ, String, none, some, Result, ok, arith}
use uploadfun.Upload.{Endpoint, Protocol, protocol_ftp, protocol_ftps, protocol_sftp}
use uploadfun.Dispatch.Effects.{Uploader, Process}
use uploadfun.Dispatch.Willing.{IsWilling}
use uploadfun.Transports.Adapter.{
  RemoteClient, LocalFiles, Adapted, Dial, Dialers, connect_with, delete_remote, verify_remote,
  upload_open, upload_local, transport_uploader, new_real_uploader, around,
}

-- No delete, upload or verify of the client ever fails.
pub record IsObliging {W : Type 0} (client : RemoteClient W) : Type 0 where
  pub delete : (remote : String) (w : W) → (client.delete remote w).0 ≡ none
  pub upload :
      (remote file : String) (size : ℕ) (w : W) → (client.upload remote file size w).1 ≡ none
  pub verify : (file remote : String) (w : W) → (client.verify file remote w).1 ≡ none

-- Every dial leads to such a client.
abbrev pub IsReachable : {W : Type 0} → Dial W → Type 0
IsReachable {W} dial =
    (timeout : ℤ) (ep : Endpoint) (w : W)
    → (client : RemoteClient W) × ((dial timeout ep w).0 ≡ ok client) × IsObliging client

-- Every local file can be opened, and has a size.
pub record IsReadable {W : Type 0} (files : LocalFiles W) : Type 0 where
  pub open_file : (file : String) (w : W) → (files.open_file file w).0 ≡ none
  pub stat_size : (file : String) (w : W) → (size : ℕ) × ((files.stat_size file w).0 ≡ ok size)

-- There is such a client.
abbrev pub IsLive : {W : Type 0} → Adapted W → Type 0
IsLive {W} u = (client : RemoteClient W) × (u.client ≡ some client) × IsObliging client

connect_with-IsLive :
    {W : Type 0} (r : Result (RemoteClient W)) (client : RemoteClient W) (world : W) (u : Adapted W)
    → r ≡ ok client
    → IsObliging client
    → let (err, u') = connect_with r world u in (err ≡ none) × IsLive u'
unfolding connect_with
connect_with-IsLive r client world u is good =
    (ground (arith, is), (client, ground (arith, is), good))

delete_remote-IsLive :
    {W : Type 0} (remote : String) (u : Adapted W)
    → IsLive u
    → let (err, u') = delete_remote remote u in (err ≡ none) × IsLive u'
unfolding delete_remote
delete_remote-IsLive remote u (client, is, good) =
    (ground (arith, is, good.delete remote u.world), (client, ground (arith, is), good))

verify_remote-IsLive :
    {W : Type 0} (file remote : String) (u : Adapted W)
    → IsLive u
    → let (method, err, u') = verify_remote file remote u in (err ≡ none) × IsLive u'
unfolding verify_remote
verify_remote-IsLive file remote u (client, is, good) =
    (ground (arith, is, good.verify file remote u.world), (client, ground (arith, is), good))

upload_local-IsLive :
    {W : Type 0} (files : LocalFiles W) (file remote : String) (u : Adapted W)
    → IsReadable files
    → IsLive u
    → let (steps, err, u') = upload_local files file remote u in (err ≡ none) × IsLive u'
unfolding upload_local upload_open
upload_local-IsLive files file remote u readable (client, is, good) =
    let opened = readable.open_file file u.world in
    let world1 = (files.open_file file u.world).1 in
    let (size, known) = readable.stat_size file world1 in
    let world2 = (files.stat_size file world1).1 in
    (
      ground (arith, is, opened, known, good.upload remote file size world2),
      (client, ground (arith, is, opened, known), good),
    )

module _ {W : Type 0} (process : Process W) (files : LocalFiles W)
    (context : (w : W) → (process.ctx_err w).0 ≡ none) (readable : IsReadable files) where
  pub transport_uploader-IsWilling :
      (dial : Dial W)
      → IsReachable dial
      → IsWilling (around process) (transport_uploader files dial) (λ u. Unit) IsLive
  unfolding transport_uploader around
  transport_uploader-IsWilling dial reachable = record {
    context = λ u. context u.world;
    ready_context = λ u h. tt;
    live_context = λ u h. h;
    ready_clock = λ u h. tt;
    live_clock = λ u h. h;
    connect = λ timeout ep u h.
        let (client, is, good) = reachable timeout ep u.world in
        let (result, world) = dial timeout ep u.world in
        connect_with-IsLive result client world u is good;
    delete = λ remote u h. delete_remote-IsLive remote u h;
    upload = λ file remote u h. upload_local-IsLive files file remote u readable h;
    verify = λ file remote u h. verify_remote-IsLive file remote u h;
  }

  -- There is an uploader for each of the three protocols, and it is willing.
  pub new_real_uploader-IsWilling :
      (dialers : Dialers W)
      → IsReachable dialers.dial_ftp
      → IsReachable dialers.dial_ftps
      → IsReachable dialers.dial_sftp
      → (protocol : Protocol)
      → (protocol ≡ protocol_ftp) ⊎ ((protocol ≡ protocol_ftps) ⊎ (protocol ≡ protocol_sftp))
      → (up : Uploader (Adapted W)) × (new_real_uploader files dialers protocol ≡ ok up)
        × IsWilling (around process) up (λ u. Unit) IsLive
  unfolding new_real_uploader
  new_real_uploader-IsWilling dialers ftp ftps sftp protocol (inl e) =
      (_, rw e refl, transport_uploader-IsWilling dialers.dial_ftp ftp)
  new_real_uploader-IsWilling dialers ftp ftps sftp protocol (inr (inl e)) =
      (_, rw e refl, transport_uploader-IsWilling dialers.dial_ftps ftps)
  new_real_uploader-IsWilling dialers ftp ftps sftp protocol (inr (inr e)) =
      (_, rw e refl, transport_uploader-IsWilling dialers.dial_sftp sftp)
