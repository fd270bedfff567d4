-- ===== src/Lifecycle.antt =====
-- src/ToxTunCore.cpp and src/Connection.cpp: how a connection begins at a request of the friend,
-- and how the program ends one.
use lib_tox_tun.Base.{ℕ, ◌+◌, ◌<◌, ◌≡◌, ◌≢◌, refl, false, none, some, [], ◌∷◌, arith, ◌==◌, eq_self}
use lib_tox_tun.Errors.{ok}
use lib_tox_tun.Data.{
  Data, connection_request, connection_reject, connection_close, lossless, get_send_tox,
  get_tox_header, to_byte,
}
use lib_tox_tun.Assoc.{Keyed, find, erase, emplace, find-erase_self, find-erase_ne, find-emplace}
use lib_tox_tun.World.{
  World, Env, Connection, State, own_request_pending, friends_request_pending, expecting_ip_packet,
  expecting_ip_confirmation, connected, deleting, connection_requested, connection_closed,
  disconnected, friend_is_ringing, tun_opened, tun_closed, callback_called, returned,
}
use lib_tox_tun.World.Exec.{callback}
use lib_tox_tun.Connection.{say_goodbye, destroy, erase_connection, construct, fresh}
use lib_tox_tun.Handlers.{connection_state}
use lib_tox_tun.Core.{
  emplace_connection, handle_connection_request, greet, handle_packet, close_connection,
  reject_connection, get_connection_state,
}
use lib_tox_tun.Closing.{
  after_send, after_callback, reset_friend-sends, callback-set, send_id-lossless,
}

-- What the friend and the program are told when a connection in `state` is destroyed.
abbrev pub farewell : Env → ℕ → State → ℕ → World → World
farewell env function friends_request_pending friend w = after_send env friend lossless (162 ∷ []) w
farewell env function connected friend w = after_send env friend lossless (163 ∷ []) w
farewell env function deleting friend w = w
farewell env function _ friend w =
    after_callback env function connection_closed friend
      (after_send env friend lossless (164 ∷ []) w)

module _ (env : Env) (function : ℕ) (room : 0 < env.max_packet) where
  pub say_goodbye-tells :
      (state : State) (friend : ℕ) (w : World)
      → w.callback_function ≡ some function
      → say_goodbye env state friend w ≡ (ok tt, farewell env function state friend w)
  unfolding say_goodbye to_byte
  say_goodbye-tells friends_request_pending friend w set =
      rw (send_id-lossless env connection_reject friend w room (unfold get_send_tox in refl))
  say_goodbye-tells connected friend w set =
      rw (send_id-lossless env connection_close friend w room (unfold get_send_tox in refl))
  say_goodbye-tells deleting friend w set = refl
  say_goodbye-tells own_request_pending friend w set = rw (
    reset_friend-sends env friend w room,
    callback-set env function connection_closed friend (after_send env friend lossless (164 ∷ []) w)
        set,
  )
  say_goodbye-tells expecting_ip_packet friend w set = rw (
    reset_friend-sends env friend w room,
    callback-set env function connection_closed friend (after_send env friend lossless (164 ∷ []) w)
        set,
  )
  say_goodbye-tells expecting_ip_confirmation friend w set = rw (
    reset_friend-sends env friend w room,
    callback-set env function connection_closed friend (after_send env friend lossless (164 ∷ []) w)
        set,
  )

farewell-connections :
    (env : Env) (function : ℕ) (state : State) (friend : ℕ) (w : World)
    → (farewell env function state friend w).connections ≡ w.connections
farewell-connections env function own_request_pending friend w = refl
farewell-connections env function friends_request_pending friend w = refl
farewell-connections env function expecting_ip_packet friend w = refl
farewell-connections env function expecting_ip_confirmation friend w = refl
farewell-connections env function connected friend w = refl
farewell-connections env function deleting friend w = refl

-- The world without the connection, after the farewell.
abbrev pub closed : Env → ℕ → State → ℕ → World → World
closed env function state friend w =
    let left =
      farewell env function state friend (record w { connections = erase friend w.connections }) in
    record left { actions = tun_closed friend ∷ left.actions }

-- The program closes or rejects a connection, which is the same in any state: the friend is told by
-- the packet that fits the state, a reject for a request of his, a close for an established
-- connection and else a reset, after which the program is told too; the tun interface is closed; the connection is gone, its state is
-- disconnected, and that of any other friend is as before.
pub close_connection-closes :
    (env : Env) (friend other : ℕ) (c : Connection) (function : ℕ) (w : World)
    → 0 < env.max_packet
    → find friend w.connections ≡ some c
    → c.connected_friend ≡ friend
    → w.callback_function ≡ some function
    → Keyed 0 w.connections
    → other ≢ friend
    → (close_connection env friend w ≡ (ok tt, closed env function c.state friend w))
      × (reject_connection env friend w ≡ (ok tt, closed env function c.state friend w))
      × (get_connection_state friend (closed env function c.state friend w) ≡ disconnected)
      × (get_connection_state other (closed env function c.state friend w)
          ≡ get_connection_state other w)
unfolding close_connection reject_connection erase_connection destroy get_connection_state
close_connection-closes env friend other c function w room h named set keyed apart =
    let w' : World = record w { connections = erase friend w.connections } in
    (
      rw (h, named, say_goodbye-tells env function room c.state friend w' set),
      rw (h, named, say_goodbye-tells env function room c.state friend w' set),
      rw (farewell-connections env function c.state friend w', get_connection_state)
          (rw (find-erase_self friend 0 w.connections keyed)),
      rw (farewell-connections env function c.state friend w', get_connection_state)
          (rw (find-erase_ne friend other w.connections apart)),
    )

-- A connection with a tun interface was added, and the program told.
abbrev pub ringing : Env → ℕ → ℕ → World → World
ringing env function friend w = record w {
  connections = emplace friend (fresh env friend false (env.self_udp_port w.clock)) w.connections;
  clock = w.clock + 1 + 1;
  actions =
      callback_called function connection_requested friend w.callback_user_data
      ∷ tun_opened friend
      ∷ w.actions;
}

-- A connection request of a friend without a connection, on a set callback: a connection with a
-- tun interface is added, the program is told, and the friend is ringing; the state of any other
-- friend is as before.
pub handle_packet-request :
    (env : Env) (friend other function : ℕ) (d : Data) (w : World)
    → find friend w.connections ≡ none
    → Keyed 0 w.connections
    → w.callback_function ≡ some function
    → get_tox_header d ≡ ok connection_request
    → env.open_tun (w.clock + 1) ≡ returned tt
    → other ≢ friend
    → (handle_packet env d friend w ≡ (ok tt, ringing env function friend w))
      × (get_connection_state friend (ringing env function friend w) ≡ friend_is_ringing)
      × (get_connection_state other (ringing env function friend w) ≡ get_connection_state other w)
unfolding handle_packet greet handle_connection_request emplace_connection construct
    get_connection_state connection_state callback
handle_packet-request env friend other function d w new keyed set named opens apart =
    let c : Connection = fresh env friend false (env.self_udp_port w.clock) in
    let differ : (other == friend) ≡ false = ground arith in
    (
      rw (new, named, greet, set, opens),
      rw (
        find-emplace friend friend 0 c w.connections keyed new,
        eq_self friend,
        get_connection_state,
      ),
      rw (find-emplace friend other 0 c w.connections keyed new, differ, get_connection_state),
    )
