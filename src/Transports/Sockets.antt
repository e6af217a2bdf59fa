-- ===== src/Transports/Sockets.antt =====
-- internal/transport: the connections that a dial opens, and their connect deadlines.
use Prim.Native.Char.{code}
use uploadfun.Base.{
  ℕ, ℤ, pos, ltb_ℤ, String, ◌<>◌, Bool, true, false, ◌||◌, List, [], ◌∷◌, Result, nat_eq,
  if◌then◌else◌,
}
use uploadfun.Base.Text.{show_ℤ}
use uploadfun.Transports.Tls.{TlsConfig}

-- A `context.Context`: the one that bounds a connect, or `context.Background()`.
pub data Context : Type 0 where
  connecting background : Context

-- A `net.Conn`: the one that a dial opened, which is known by a number, a `guardedConn` around another,
-- or a `tls.Client` over another. The guard is that of the dial.
pub data NetConn : Type 0 where
  socket : (conn : ℕ) → NetConn
  guarded_conn : NetConn → NetConn
  tls_client : NetConn → TlsConfig → NetConn

-- `stallGuard.wrap`
unfoldable pub wrap_conn : NetConn → NetConn
wrap_conn conn = guarded_conn conn

-- The connection below.
abbrev pub socket_of : NetConn → ℕ
socket_of (socket conn) = conn
socket_of (guarded_conn conn) = socket_of conn
socket_of (tls_client conn config) = socket_of conn

-- What is done to a connection, which is known by a number: `armed` and `cleared` are the deadlines
-- of `armConnectDeadline` and `clearDeadline`, `handed` is the start of an SSH handshake.
pub data Deed : Type 0 where
  opened : (context : Context) (conn : ℕ) → Deed
  armed : (conn : ℕ) → Deed
  cleared : (conn : ℕ) → Deed
  closed : (conn : ℕ) → Deed
  handed : (conn : NetConn) → Deed

-- The world, with the deeds, the latest first.
pub record Net (W : Type 0) : Type 0 where
  pub world : W
  pub deeds : List Deed

-- `net.Dialer.DialContext`
abbrev pub DialContext : Type 0 → Type 0
DialContext W = Context → (timeout : ℤ) → (address : String) → W → Result ℕ × W

abbrev pub note : {W : Type 0} → Deed → Net W → Net W
note deed net = record net { deeds = deed ∷ net.deeds }

-- The deed of `armConnectDeadline`.
unfoldable pub arm_conn : {W : Type 0} → ℕ → ℤ → Net W → Net W
arm_conn conn timeout net = if ltb_ℤ (pos 0) timeout then note (armed conn) net else net

-- The connection has a connect deadline.
abbrev pub is_armed : ℕ → List Deed → Bool
is_armed conn [] = false
is_armed conn (armed c ∷ deeds) = nat_eq c conn || is_armed conn deeds
is_armed conn (cleared c ∷ deeds) =
    let rest = is_armed conn deeds in elim (nat_eq c conn) [ true ↦ false | false ↦ rest ]
is_armed conn (_ ∷ deeds) = is_armed conn deeds

-- The connections that were opened and not closed, the latest first.
abbrev pub without : ℕ → List ℕ → List ℕ
without conn [] = []
without conn (c ∷ conns) =
    let rest = without conn conns in elim (nat_eq c conn) [ true ↦ rest | false ↦ c ∷ rest ]

abbrev pub open_conns : List Deed → List ℕ
open_conns [] = []
open_conns (opened _ conn ∷ deeds) = conn ∷ open_conns deeds
open_conns (closed conn ∷ deeds) = without conn (open_conns deeds)
open_conns (_ ∷ deeds) = open_conns deeds

-- The connections over which there was an SSH handshake, the latest first.
abbrev pub handed_conns : List Deed → List NetConn
handed_conns [] = []
handed_conns (handed conn ∷ deeds) = conn ∷ handed_conns deeds
handed_conns (_ ∷ deeds) = handed_conns deeds

has_colon : String → Bool
has_colon String.[] = false
has_colon (String.◌∷◌ c s) = nat_eq (code c) b':' || has_colon s

-- `net.JoinHostPort` of a port in digits.
unfoldable pub join_host_port : String → ℤ → String
unfolding has_colon
join_host_port host port =
    if has_colon host then "[" <> host <> "]:" <> show_ℤ port else host <> ":" <> show_ℤ port
