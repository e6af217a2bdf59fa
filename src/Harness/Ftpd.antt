-- ===== src/Harness/Ftpd.antt =====
-- internal/testservers: the FTP server that is started, by the command that starts it.
use Prim.Native.Char.{code}
use text.Mathlib.TextLemmas.{cons-append, nil-append}
use uploadfun.Base.{
  ℕ, ◌≡◌, refl, String, ◌<>◌, ◌==◌, Bool, true, not, ◌&&◌, nat_eq, List, [], ◌∷◌, Option, none,
  some, arith, if◌then◌else◌,
}
use uploadfun.Base.Text.{show_ℤ}
use uploadfun.Harness.Machine.{Host, Machine}
use uploadfun.Harness.Servers.{PureFtpdOptions, replace_dash, pure_ftpd_args, start_pure_ftpd}
use uploadfun.Harness.Waiting.{IsTicking}
use uploadfun.Harness.Started.{IsStarted, start_pure_ftpd-IsStarted}

-- The values of a flag among words in which each flag is followed by its value.
abbrev pub values : String → List String → List String
values flag [] = []
values flag (word ∷ []) = []
values flag (word ∷ value ∷ words) =
    let more = values flag words in if word == flag then value ∷ more else more

abbrev pub last_word : List String → Option String
last_word [] = none
last_word (word ∷ []) = some word
last_word (word ∷ next ∷ words) = last_word (next ∷ words)

unfoldable pub has_no_dash : String → Bool
has_no_dash String.[] = true
has_no_dash (String.◌∷◌ c s) = not (nat_eq (code c) b'-') && has_no_dash s

-- What the words behind the name of the container tell `docker run`: the ports of the server are those
-- of the options, with the range from `low` to `high` for data, and so are certificate and user.
pub record IsConfigured (opts : PureFtpdOptions) (low high : String) (words : List String)
    : Type 0 where
  image : last_word words ≡ some "stilliard/pure-ftpd:hardened"
  ports :
      values "-p" words
      ≡ (show_ℤ opts.control_port <> ":21")
        ∷ ((low <> ("-" <> high)) <> (":" <> (low <> ("-" <> high))))
        ∷ []
  certificate : values "-v" words ≡ (opts.cert_path <> ":/etc/ssl/private/pure-ftpd.pem:ro") ∷ []
  settings :
      values "-e" words
      ≡ "PUBLICHOST=127.0.0.1"
        ∷ ("FTP_USER_NAME=" <> opts.username)
        ∷ ("FTP_USER_PASS=" <> opts.password)
        ∷ ("FTP_USER_HOME=/home/ftpusers/" <> opts.username)
        ∷ ("FTP_PASSIVE_PORTS=" <> (low <> (":" <> high)))
        ∷ "ADDED_FLAGS=--tls=1"
        ∷ []

replace_dash-append :
    (low high : String)
    → has_no_dash low ≡ true
    → replace_dash (low <> ("-" <> high)) ≡ low <> (":" <> high)
unfolding has_no_dash replace_dash
replace_dash-append String.[] high h =
    rw (nil-append, nil-append, cons-append, nil-append, cons-append, nil-append) refl
replace_dash-append (String.◌∷◌ c s) high h =
    rw (cons-append c s ("-" <> high), cons-append c s (":" <> high))
      (ground (arith, h, replace_dash-append s high))

pure_ftpd_args-IsConfigured :
    (opts : PureFtpdOptions) (low high : String)
    → has_no_dash low ≡ true
    → opts.data_port_range ≡ low <> ("-" <> high)
    → IsConfigured opts low high (pure_ftpd_args opts)
unfolding pure_ftpd_args
pure_ftpd_args-IsConfigured opts low high h range = record {
  image = refl;
  ports = rw range refl;
  certificate = refl;
  settings = rw (range, replace_dash-append low high h) refl;
}

module _ {W : Type 0} (host : Host W) where
  -- `StartPureFTPD` ends. If it returns, a fresh container of the given name was started with the image
  -- of the server, the given control port published as its port 21, the given range of ports published
  -- for data and set as its passive ports, the given certificate mounted, the given user and password
  -- set, and TLS on; the control port has accepted a connection since, and what is returned removes
  -- that container. If not, it ends the process with 1. The conditions are that the range of ports is
  -- written as two texts around the first dash, and that the clock does not go back and runs on during
  -- a pause.
  pub start_pure_ftpd-IsConfigured :
      (opts : PureFtpdOptions) (low high : String) (time : W → ℕ) (m : Machine W)
      → has_no_dash low ≡ true
      → opts.data_port_range ≡ low <> ("-" <> high)
      → IsTicking host time
      → (words : List String) × IsConfigured opts low high words
        × IsStarted host opts.container_name words
            ("127.0.0.1:" <> show_ℤ opts.control_port)
            m.deeds
            (start_pure_ftpd host opts m)
  start_pure_ftpd-IsConfigured opts low high time m h range ticking = (
    pure_ftpd_args opts,
    pure_ftpd_args-IsConfigured opts low high h range,
    start_pure_ftpd-IsStarted host opts time m ticking,
  )
