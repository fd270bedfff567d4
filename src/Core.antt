-- ===== src/Core.antt =====
-- src/ToxTunCore.hpp and src/ToxTunCore.cpp: the operations that a program calls, and the entry of
-- the packets that tox received.
use lib_tox_tun.Base.{
  ℕ, ◌/◌, Bool, true, false, Option, none, some, List, [], ◌∷◌, map, length, if◌then◌else◌,
}
use lib_tox_tun.Errors.{thrown, Result, ok, err, error}
use lib_tox_tun.Data.{
  Data, PacketId, connection_request, connection_reset, from_tox_data, get_tox_header,
}
use lib_tox_tun.Assoc.{find, emplace}
use lib_tox_tun.World.{World, Env, Connection, connection_requested, ConnectionState, disconnected}
use lib_tox_tun.World.Exec.{
  Exec, pure, raise, lift, try_catch, noexcept, gets, callback, ◌>>=◌, ◌>>◌,
}
use lib_tox_tun.Connection.{construct, reset_friend, erase_connection}
use lib_tox_tun.Handlers.{accept, connection_state}
use lib_tox_tun.Incoming.{handle_data, iterate}

abbrev pub is_some {ℓ} : {A : Type ℓ} → Option A → Bool
is_some none = false
is_some (some a) = true

-- `connections.count(friendNumber)`
abbrev pub has : ℕ → World → Bool
has friend w = is_some (find friend w.connections)

-- ToxTunCore::setCallback. `none` is the null pointer.
unfoldable pub set_callback : Option ℕ → ℕ → Exec (Unit {0})
set_callback function user_data w =
    (ok tt, record w { callback_function = function; callback_user_data = user_data })

abbrev pub insert_connection : ℕ → Connection → Exec (Unit {0})
insert_connection friend c w = (ok tt, record w { connections = emplace friend c w.connections })

module _ (env : Env) where
  -- `connections.emplace(..., forward_as_tuple(friendNumber, *this, initiate))`
  unfoldable pub emplace_connection : ℕ → Bool → Exec (Unit {0})
  emplace_connection friend initiate = do
    c ← construct env friend initiate
    insert_connection friend c

  -- ToxTunCore::handleConnectionRequest
  unfoldable pub handle_connection_request : ℕ → Exec (Unit {0})
  handle_connection_request friend = noexcept (do
    ready ← gets (λ w. is_some w.callback_function)
    if ready
        then (do
          added ←
              try_catch (do emplace_connection friend false; pure true)
                (do erase_connection env friend; reset_friend env friend; pure false)
          if added then callback connection_requested friend else pure tt)
        else pure tt)

  unfoldable pub greet : PacketId → ℕ → Exec (Unit {0})
  greet connection_request friend = handle_connection_request friend
  greet connection_reset friend = pure tt
  greet _ friend = reset_friend env friend

  -- ToxTunCore::handleData
  unfoldable pub handle_packet : Data → ℕ → Exec (Unit {0})
  handle_packet d friend = noexcept (do
    known ← gets (has friend)
    if known then handle_data env friend d else (do id ← lift (get_tox_header d); greet id friend))

  -- ToxTunCore::toxPacketCallback
  unfoldable pub tox_packet_callback : ℕ → List ℕ → Exec (Unit {0})
  tox_packet_callback friend bytes =
      noexcept (do d ← lift (from_tox_data bytes); handle_packet d friend)

  unfoldable pub iterate_each : ℕ → ℕ → List ℕ → Exec (Unit {0})
  iterate_each fuel time [] = pure tt
  iterate_each fuel time (friend ∷ friends) = do
    iterate env fuel friend time
    iterate_each fuel time friends

  -- ToxTunCore::iterate, with the microseconds for each connection.
  unfoldable pub iterate_all : ℕ → Exec (Unit {0})
  unfolding iterate_each
  iterate_all fuel w = elim w.connections [
    | [] ↦ (ok tt, w)
    | entry ∷ rest ↦
        noexcept (iterate_each fuel (500 / length (entry ∷ rest)) (map (λ e. e.0) (entry ∷ rest))) w
  ]

  -- ToxTunCore::sendConnectionRequest
  unfoldable pub send_request : ℕ → Exec (Unit {0})
  send_request friend = do
    known ← gets (has friend)
    if known
        then raise (error "You have allready an open connection to this friend")
        else emplace_connection friend true

  -- `connections.erase(friendNumber); throw ToxTunError(error);`
  abbrev pub or_erase : ℕ → Result (Unit {0}) → Exec (Unit {0})
  or_erase friend (ok a) w = (ok a, w)
  or_erase friend (err (thrown e)) w = (erase_connection env friend >> raise (thrown e)) w
  or_erase friend (err e) w = (err e, w)

  -- ToxTunCore::acceptConnection
  unfoldable pub accept_connection : ℕ → Exec (Unit {0})
  accept_connection friend = do
    known ← gets (has friend)
    if known
        then (λ w. or_erase friend (accept env friend w).0 (accept env friend w).1)
        else raise (error "No connection to accept from this friend")

  -- ToxTunCore::rejectConnection
  unfoldable pub reject_connection : ℕ → Exec (Unit {0})
  reject_connection friend = noexcept (erase_connection env friend)

  -- ToxTunCore::closeConnection
  unfoldable pub close_connection : ℕ → Exec (Unit {0})
  close_connection friend = noexcept (erase_connection env friend)

-- ToxTunCore::getConnectionState
unfoldable pub get_connection_state : ℕ → World → ConnectionState
get_connection_state friend w = elim (find friend w.connections) [
  | none ↦ disconnected
  | some c ↦ connection_state c.state
]
