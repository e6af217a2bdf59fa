-- ===== src/Transports/Session.antt =====
-- internal/transport/ftp.go and sftp.go: the clients on an open session, over the libraries that speak
-- the protocols.
use uploadfun.Base.{
  ℕ, ◌≡◌, ◌↔◌, nat_eq, String, Bool, true, false, ◌||◌, List, [], Option, none, some, ErrKind,
  not_exist, reply, Err, root, wrap, join, arith, Result, if◌then◌else◌,
}
use uploadfun.Transports.Adapter.{RemoteClient}
use uploadfun.Transports.Conn.{verify_by_size, read_reports}

-- `ftp.ServerConn`. `stor` is given the path of the local file that its reader reads, and returns the
-- numbers of bytes that its reads returned.
pub record FtpConn (W : Type 0) : Type 0 where
  pub quit : W → Option Err × W
  pub delete : String → W → Option Err × W
  pub stor : String → String → W → List ℕ × Option Err × W
  pub file_size : String → W → Result ℕ × W

-- `sftp.Client` and its `ssh.Client`; `copy` is `io.Copy` into the file that `create` opened, and
-- `close_remote` closes that file.
pub record SftpConn (W : Type 0) : Type 0 where
  pub close_sftp : W → Option Err × W
  pub close_ssh : W → Option Err × W
  pub remove : String → W → Option Err × W
  pub create : String → W → Option Err × W
  pub copy : String → W → List ℕ × Option Err × W
  pub close_remote : W → Option Err × W
  pub remote_stat : String → W → Result ℕ × W

abbrev kind_code : ErrKind → Option ℕ
kind_code (reply n) = some n
kind_code _ = none

-- The code of the first `textproto.Error` that `errors.As` finds.
unfoldable pub reply_code : Err → Option ℕ
reply_code (root kind text) = kind_code kind
reply_code (wrap text e) = reply_code e
reply_code (join a b) =
    let second = reply_code b in elim (reply_code a) [ some n ↦ some n | none ↦ second ]

unfoldable pub is_file_unavailable : Err → Bool
is_file_unavailable e = elim (reply_code e) [ none ↦ false | some n ↦ nat_eq n 550 ]

abbrev is_not_exist_kind : ErrKind → Bool
is_not_exist_kind not_exist = true
is_not_exist_kind _ = false

-- `errors.Is(err, os.ErrNotExist)`
unfoldable pub is_not_exist : Err → Bool
is_not_exist (root kind text) = is_not_exist_kind kind
is_not_exist (wrap text e) = is_not_exist e
is_not_exist (join a b) = is_not_exist a || is_not_exist b

-- An error that means that there is no such file is none.
unfoldable pub forgive : (Err → Bool) → Option Err → Option Err
forgive is_absent none = none
forgive is_absent (some e) = if is_absent e then none else some e

-- `errors.Join` of two errors that may be nil.
unfoldable pub join_two : Option Err → Option Err → Option Err
join_two none b = b
join_two (some a) none = some a
join_two (some a) (some b) = some (join a b)

module _ {W : Type 0} (stat_local : String → W → Result ℕ × W) where
  unfoldable pub ftp_client : FtpConn W → RemoteClient W
  ftp_client conn = record {
    close = conn.quit;
    delete =
        λ remote w. let (err, w1) = conn.delete remote w in (forgive is_file_unavailable err, w1);
    upload = λ remote file size w.
        let (reads, err, w1) = conn.stor remote file w in (read_reports size 0 reads, err, w1);
    verify = λ file remote w. verify_by_size (stat_local file) (conn.file_size remote) w;
  }

  unfoldable pub close_both : SftpConn W → W → Option Err × W
  close_both conn w =
      let (a, w1) = conn.close_sftp w in let (b, w2) = conn.close_ssh w1 in (join_two a b, w2)

  unfoldable pub stream_to_close : SftpConn W → String → ℕ → W → List (ℕ × ℕ) × Option Err × W
  stream_to_close conn file size w =
      let (reads, copy_err, w1) = conn.copy file w in
      let (close_err, w2) = conn.close_remote w1 in
      (read_reports size 0 reads, elim copy_err [ some e ↦ some e | none ↦ close_err ], w2)

  unfoldable pub upload_sftp : SftpConn W → String → String → ℕ → W → List (ℕ × ℕ) × Option Err × W
  upload_sftp conn remote file size w =
      let (err, w1) = conn.create remote w in
      elim err [ some e ↦ ([], some e, w1) | none ↦ stream_to_close conn file size w1 ]

  unfoldable pub sftp_client : SftpConn W → RemoteClient W
  sftp_client conn = record {
    close = close_both conn;
    delete = λ remote w. let (err, w1) = conn.remove remote w in (forgive is_not_exist err, w1);
    upload = upload_sftp conn;
    verify = λ file remote w. verify_by_size (stat_local file) (conn.remote_stat remote) w;
  }

  -- An upload over SFTP succeeds exactly if the remote file was created, all was copied and the close
  -- of the remote file went well; and once the file is created it is closed, whatever the copy says.
  pub upload_sftp-none :
      (conn : SftpConn W) (remote file : String) (size : ℕ) (w : W)
      → let created = conn.create remote w in
        let copied = conn.copy file created.1 in
        let closed = conn.close_remote copied.2 in
        let (reports, err, w') = upload_sftp conn remote file size w in
        ((err ≡ none) ↔ ((created.0 ≡ none) × (copied.1 ≡ none) × (closed.0 ≡ none)))
        × (created.0 ≡ none → w' ≡ closed.1)
  unfolding upload_sftp stream_to_close
  upload_sftp-none conn remote file size w = ground arith
