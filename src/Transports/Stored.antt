-- ===== src/Transports/Stored.antt =====
-- dispatch.go, transports.go, internal/transport/sftp.go and conn.go together: a file that is reported
-- as uploaded over SFTP.
use uploadfun.Base.{
  ℕ, ◌≡◌, refl, sym, ap, ◌∙◌, String, true, false, none, some, Result, ok, fail, arith,
}
use uploadfun.Base.Text.{base}
use uploadfun.Upload.{Endpoint, Options}
use uploadfun.Dispatch.Effects.{Process, Worker}
use uploadfun.Dispatch.Worker.{settled, try_transfer}
use uploadfun.Transports.Adapter.{LocalFiles, Adapted, Dial, transport_uploader, around}
use uploadfun.Transports.Conn.{verify_by_size, compare_sizes, are_same, verify_by_size-none}
use uploadfun.Transports.Session.{SftpConn, upload_sftp, sftp_client, upload_sftp-none}
use uploadfun.Transports.Uploaded.{IsConfirmed, try_transfer-IsConfirmed}

are_same-size : (a b : Result ℕ) → are_same a b ≡ true → (size : ℕ) × (a ≡ ok size) × (b ≡ ok size)
are_same-size (ok m) (ok n) h = (n, ground (arith, h), refl)
are_same-size (ok m) (fail e) h = absurd cc
are_same-size (fail e) b h = absurd cc

verify_by_size-world :
    {W : Type 0} (stat_local remote_size : W → Result ℕ × W) (w : W)
    → let (method, err, w') = verify_by_size stat_local remote_size w in
      err ≡ none → w' ≡ (remote_size (stat_local w).1).1
unfolding verify_by_size compare_sizes
verify_by_size-world stat_local remote_size w h = ground (arith, h)

module _ {W : Type 0} (files : LocalFiles W) (stat_local : String → W → Result ℕ × W)
    (conn : SftpConn W) where
  -- The remote file was created, filled and closed without an error; then the local file was closed,
  -- and the two files had the same size. `last` is the world after that.
  pub record IsStored (file remote : String) (last : W) : Type 0 where
    before : W
    created : (conn.create remote before).0 ≡ none
    copied : (conn.copy file (conn.create remote before).1).1 ≡ none
    closed : (conn.close_remote (conn.copy file (conn.create remote before).1).2).0 ≡ none
    size : ℕ
    at : W
    put_down :
        at
        ≡ files.close_file file
            (conn.close_remote (conn.copy file (conn.create remote before).1).2).1
    here : (stat_local file at).0 ≡ ok size
    there : (conn.remote_stat remote (stat_local file at).1).0 ≡ ok size
    ends : last ≡ (conn.remote_stat remote (stat_local file at).1).1

  IsConfirmed-IsStored :
      (file remote : String) (last : W)
      → IsConfirmed files (sftp_client stat_local conn) file remote last
      → IsStored file remote last
  unfolding sftp_client
  IsConfirmed-IsStored file remote last h =
      let (steps, err, sent) = upload_sftp stat_local conn remote file h.size h.before in
      let at = files.close_file file sent in
      let (taken, world_of) = upload_sftp-none stat_local conn remote file h.size h.before in
      let (created, copied, closed) = taken.0 h.sent in
      let (verified, _) = verify_by_size-none (stat_local file) (conn.remote_stat remote) at in
      let (size, here, there) = are_same-size _ _ (verified.0 h.confirmed) in
      record {
        before = h.before;
        created = created;
        copied = copied;
        closed = closed;
        size = size;
        at = at;
        put_down = ap (λ x. files.close_file file x) (world_of created);
        here = here;
        there = there;
        ends =
            sym h.ends
            ∙ verify_by_size-world (stat_local file) (conn.remote_stat remote) at h.confirmed;
      }

module _ {W : Type 0} (process : Process W) (files : LocalFiles W) (dial_client : Dial W)
    (stat_local : String → W → Result ℕ × W) (conn : SftpConn W) where
  -- If an attempt over an SFTP session succeeds, with verification on, then the remote file was
  -- created, the local file was copied into it, and it was closed, each without an error; and
  -- after that the local file and the remote one, named by the base of the local path, were asked for
  -- their sizes and had the same. Nothing but a look at the clock follows.
  pub try_transfer-IsStored :
      (ep : Endpoint) (opts : Options) (file : String) (attempt : ℕ) (w : Worker (Adapted W))
      → w.world.client ≡ some (sftp_client stat_local conn)
      → opts.no_verify ≡ false
      → let (w', v) =
          try_transfer
            (around process)
            (transport_uploader files dial_client)
            ep
            opts
            file
            attempt
            w in
        v ≡ settled true
        → (last : W) × IsStored files stat_local conn file (base file) last
          × (w'.world.world ≡ (process.now last).1)
  try_transfer-IsStored ep opts file attempt w live verified h =
      let (last, confirmed, ends) =
        try_transfer-IsConfirmed process files dial_client (sftp_client stat_local conn) ep opts
          file attempt w live verified h in
      (last, IsConfirmed-IsStored files stat_local conn file (base file) last confirmed, ends)
