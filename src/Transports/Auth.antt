-- ===== src/Transports/Auth.antt =====
-- internal/transport/sftp.go: the choice between the private key and the password.
use uploadfun.Base.{
  ◌≡◌, String, Bool, true, false, not, ◌||◌, List, [], ◌∷◌, length, any, ErrKind,
  passphrase_missing, other, Err, root, wrap, join, arith, Result, ok, fail, if◌then◌else◌,
}
use uploadfun.Base.Text.{is_empty}

-- `os.ReadFile`, `ssh.ParsePrivateKey` and `ssh.ParsePrivateKeyWithPassphrase`.
pub record KeyReader (S : Type 0) : Type 0 where
  pub read_file : String → Result String
  pub parse : String → Result S
  pub parse_with_passphrase : String → String → Result S

-- `ssh.AuthMethod`, as `sftpAuthMethods` makes them.
pub data AuthMethod (S : Type 0) : Type 0 where
  public_keys : S → AuthMethod S
  password : String → AuthMethod S

abbrev is_passphrase_kind : ErrKind → Bool
is_passphrase_kind passphrase_missing = true
is_passphrase_kind _ = false

-- `errors.As` finds an `ssh.PassphraseMissingError`.
unfoldable pub needs_passphrase : Err → Bool
needs_passphrase (root kind text) = is_passphrase_kind kind
needs_passphrase (wrap text e) = needs_passphrase e
needs_passphrase (join a b) = needs_passphrase a || needs_passphrase b

module _ {S : Type 0} (reader : KeyReader S) where
  unfoldable pub load_private_key : (path passphrase : String) → Result S
  load_private_key path passphrase = elim (reader.read_file path) [
    | fail e ↦ fail e
    | ok bytes ↦ elim (reader.parse bytes) [
      | ok signer ↦ ok signer
      | fail e ↦
          if not (needs_passphrase e)
          then fail e
          else if is_empty passphrase
          then fail (
              wrap
                "key is passphrase-protected but no password was provided to use as its passphrase: "
                e)
          else reader.parse_with_passphrase bytes passphrase
    ]
  ]

  unfoldable pub sftp_auth_methods : (key_path pass : String) → Result (List (AuthMethod S))
  sftp_auth_methods key_path pass =
      if not (is_empty key_path)
      then elim (load_private_key key_path pass) [
        | fail e ↦ fail (wrap "private key: " e)
        | ok signer ↦ ok (public_keys signer ∷ [])
      ]
      else if not (is_empty pass)
      then ok (password pass ∷ [])
      else fail (root other "sftp requires a password or private key")

abbrev pub is_password : {S : Type 0} → AuthMethod S → Bool
is_password (public_keys signer) = false
is_password (password pass) = true

-- If there are methods, there is one, and it sends the password to the server exactly if no private
-- key is set.
pub sftp_auth_methods-length :
    {S : Type 0} (reader : KeyReader S) (key_path pass : String) (methods : List (AuthMethod S))
    → sftp_auth_methods reader key_path pass ≡ ok methods
    → (length methods ≡ 1) × (any is_password methods ≡ is_empty key_path)
unfolding sftp_auth_methods
sftp_auth_methods-length reader key_path pass methods h = ground arith
