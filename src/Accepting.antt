-- ===== src/Accepting.antt =====
-- src/ToxTunCore.cpp and src/Connection.cpp, `acceptConnection`.
use lib_tox_tun.Base.{ℕ, ◌<◌, ◌≡◌, refl, true, false, some, [], ◌∷◌, arith}
use lib_tox_tun.Errors.{error, ok, err}
use lib_tox_tun.Data.{connection_accept, lossless, get_send_tox, to_byte}
use lib_tox_tun.Assoc.{find, assign, erase, find-assign_self}
use lib_tox_tun.World.{World, Env, Connection, friends_request_pending, expecting_ip_packet}
use lib_tox_tun.World.Exec.{this, store}
use lib_tox_tun.Connection.{destroy, erase_connection, send_to_tox}
use lib_tox_tun.Handlers.{same_state, send_or_reset, accept}
use lib_tox_tun.Core.{accept_connection}
use lib_tox_tun.Closing.{bare, from_packet_id-bare, after_send, send_to_tox_from-fits}
use lib_tox_tun.Lifecycle.{say_goodbye-tells, closed}

-- The connection waits for a proposal.
abbrev pub accepted : ℕ → Connection → World → World
accepted friend c w = record w {
  connections = assign friend (record c { state = expecting_ip_packet }) w.connections;
}

module _ (env : Env) (friend : ℕ) (c : Connection) (w : World) (room : 0 < env.max_packet)
    (h : find friend w.connections ≡ some c) (named : c.connected_friend ≡ friend) where
  accept-ringing :
      c.state ≡ friends_request_pending
      → env.send_status w.clock friend lossless (161 ∷ []) ≡ true
      → accept env friend w
        ≡ (ok tt, after_send env friend lossless (161 ∷ []) (accepted friend c w))
  unfolding accept this store send_or_reset send_to_tox to_byte
  accept-ringing ringing taken =
      let c' : Connection = record c { state = expecting_ip_packet } in
      let kept = find-assign_self friend c' c w.connections h in
      let sent =
        send_to_tox_from-fits env (bare connection_accept) friend (some friend) lossless
          (accepted friend (record c { connected_friend = friend }) w) (omega arith) refl
          (unfold get_send_tox in refl) in
      rw (h, this, ringing)
        (rw (from_packet_id-bare connection_accept) (rw (kept, named, sent, taken)))

  accept-other :
      same_state c.state friends_request_pending ≡ false
      → accept env friend w
        ≡ (err (error "Connection not on right state to accept connection request"), w)
  unfolding accept this
  accept-other other = rw (h, this, other)

  -- A request that the program accepts: the friend is told, and the connection waits for the
  -- proposal of the friend.
  pub accept_connection-ringing :
      c.state ≡ friends_request_pending
      → env.send_status w.clock friend lossless (161 ∷ []) ≡ true
      → accept_connection env friend w
        ≡ (ok tt, after_send env friend lossless (161 ∷ []) (accepted friend c w))
  unfolding accept_connection
  accept_connection-ringing ringing taken = rw (h, accept-ringing ringing taken)

  -- Accepting a connection in any other state throws and ends the connection, in the way of its
  -- state: an established one is closed.
  pub accept_connection-other :
      (function : ℕ)
      → w.callback_function ≡ some function
      → same_state c.state friends_request_pending ≡ false
      → accept_connection env friend w ≡ (
        err (error "Connection not on right state to accept connection request"),
        closed env function c.state friend w,
      )
  unfolding accept_connection erase_connection destroy
  accept_connection-other function set other =
      let w' : World = record w { connections = erase friend w.connections } in
      rw (h, accept-other other)
        (rw (h, named, say_goodbye-tells env function room c.state friend w' set))
