-- ===== src/Transports/Tls.antt =====
-- internal/transport/ftp.go: `resolveTLSConfig`.
use uploadfun.Base.{
  ℕ, ◌≡◌, ◌≢◌, is_some, true, String, Bool, false, Option, none, some, nat_eq, arith, if◌then◌else◌,
}
use uploadfun.Base.Text.{is_empty}

-- The fields of `tls.Config` that the program sets; `session_cache` is the capacity of the cache.
pub record TlsConfig : Type 0 where
  pub server_name : String
  pub client_session_cache : Option ℕ
  pub max_version : ℕ
  pub insecure_skip_verify : Bool

abbrev pub version_tls12 : ℕ
version_tls12 = 0x0303

abbrev pub empty_tls_config : TlsConfig
empty_tls_config = record {
  server_name = "";
  client_session_cache = none;
  max_version = 0;
  insecure_skip_verify = false;
}

unfoldable pub fill_in : String → TlsConfig → TlsConfig
fill_in host c = record c {
  server_name = if is_empty c.server_name then host else c.server_name;
  client_session_cache = elim c.client_session_cache [ none ↦ some 4 | some n ↦ some n ];
  max_version = if nat_eq c.max_version 0 then version_tls12 else c.max_version;
}

unfoldable pub resolve_tls_config : String → Option TlsConfig → TlsConfig
resolve_tls_config host none = fill_in host empty_tls_config
resolve_tls_config host (some c) = fill_in host c

-- What is resolved once is complete: it is not changed again, whatever the host.
pub resolve_tls_config_idem :
    (host other_host : String) (c : Option TlsConfig)
    → is_empty host ≡ false
    → let resolved = resolve_tls_config host c in
      resolve_tls_config other_host (some resolved) ≡ resolved
unfolding resolve_tls_config fill_in
resolve_tls_config_idem host other_host none named = ground arith
resolve_tls_config_idem host other_host (some c) named = ground arith

-- The configuration of TLS that was asked for, completed: the server's name is that of the host where
-- none is given, there is a session cache, and the version is at most 1.2 where none is given.
abbrev pub given : Option TlsConfig → TlsConfig
given none = empty_tls_config
given (some asked) = asked

abbrev pub IsCompleted : String → Option TlsConfig → TlsConfig → Type 0
IsCompleted host asked c =
    (c.server_name
      ≡ (if is_empty (given asked).server_name then host else (given asked).server_name))
    × (is_some c.client_session_cache ≡ true)
    × ((given asked).client_session_cache ≢ none
        → c.client_session_cache ≡ (given asked).client_session_cache)
    × (c.max_version
        ≡ (if nat_eq (given asked).max_version 0 then version_tls12 else (given asked).max_version))
    × (c.insecure_skip_verify ≡ (given asked).insecure_skip_verify)

pub resolve_tls_config-IsCompleted :
    (host : String) (asked : Option TlsConfig)
    → IsCompleted host asked (resolve_tls_config host asked)
unfolding resolve_tls_config fill_in
resolve_tls_config-IsCompleted host none = ground arith
resolve_tls_config-IsCompleted host (some asked) = ground arith
