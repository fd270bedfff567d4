-- ===== src/World.antt =====
-- The state that ToxTunCore and its Connections share (src/ToxTunCore.hpp, src/Connection.hpp), the
-- library's calls of the code outside it, and the monad of methods that change the state and may
-- throw. What was changed before a throw stays changed.
pub mod Exec
use lib_tox_tun.Base.{ℕ, zero, suc, Bool, true, false, Option, none, some, List, [], ◌∷◌}
use lib_tox_tun.Errors.{Result, ToxTunError}
use lib_tox_tun.Data.{Data, SendTox}
use lib_tox_tun.Tun.{Address}

-- `int16_t subnet`: -1 until a subnet was proposed. `negsuc n` is -(n + 1).
pub data ℤ : Type 0 where
  pos : ℕ → ℤ
  negsuc : ℕ → ℤ

-- Connection::State
pub data State : Type 0 where
  own_request_pending friends_request_pending expecting_ip_packet : State
  expecting_ip_confirmation connected deleting : State

-- ToxTun::Event
pub data Event : Type 0 where
  connection_requested connection_accepted connection_rejected connection_closed : Event

-- ToxTun::ConnectionState
pub data ConnectionState : Type 0 where
  is_connected ringing_at_friend friend_is_ringing disconnected : ConnectionState

-- The fields of `Connection`; of its `tun` only `toxUdpPort` is state of the library.
pub record Connection : Type 0 where
  pub state : State
  pub fragments : List (ℕ × List Data)
  pub connected_friend : ℕ
  pub next_fragment_index : ℕ
  pub subnet : ℤ
  pub tox_udp_port : ℕ

-- What the library does to the world outside, with the answer of tox to a send.
pub data Action : Type 0 where
  packet_sent : (friend : ℕ) (mode : SendTox) (bytes : List ℕ) (status : Bool) → Action
  callback_called : (function : ℕ) (event : Event) (friend user_data : ℕ) → Action
  tun_opened tun_closed : (friend : ℕ) → Action
  ip_set : (friend subnet postfix : ℕ) → Action
  frame_written : (friend : ℕ) (frame : List ℕ) → Action

-- ToxTunCore, the number of calls made so far of the code outside, and the actions, latest first.
pub record World : Type 0 where
  pub connections : List (ℕ × Connection)
  pub callback_function : Option ℕ
  pub callback_user_data : ℕ
  pub clock : ℕ
  pub actions : List Action

-- A method of the Tun interface returns or throws a ToxTunError, as Tun.hpp says.
pub data Attempt (A : Type 0) : Type 0 where
  returned : A → Attempt A
  failed : ToxTunError → Attempt A

-- What the library calls and does not implement: tox, and the tun backend of the platform. The
-- first argument of an answer is the clock, so that no two answers need agree. `read_tun` is the bytes that the backend
-- reads, which may be none.
pub record Env : Type 0 where
  pub max_packet : ℕ
  pub send_status : ℕ → ℕ → SendTox → List ℕ → Bool
  pub self_udp_port : ℕ → ℕ
  pub open_tun : ℕ → Attempt (Unit {0})
  pub used_addresses : ℕ → Attempt (List Address)
  pub data_pending : ℕ → Attempt Bool
  pub read_tun : ℕ → Attempt (List ℕ)
  pub write_tun : ℕ → List ℕ → Attempt (Unit {0})
  pub elapsed_over : ℕ → ℕ → Bool
