-- ===== src/Unexpected.antt =====
-- src/Connection.cpp: a packet that does not fit the state of the connection.
use lib_tox_tun.Base.{ℕ, ◌<◌, ◌≡◌, false, some}
use lib_tox_tun.Errors.{ok, err, undefined}
use lib_tox_tun.Data.{
  Data, PacketId, connection_accept, connection_reject, connection_close, ip_proposal, ip_accept,
  ip_reject, packet_data, get_tox_header,
}
use lib_tox_tun.Assoc.{find, Keyed, find-erase_self}
use lib_tox_tun.World.{
  World, Env, Connection, State, own_request_pending, expecting_ip_packet,
  expecting_ip_confirmation, connected,
}
use lib_tox_tun.World.Exec.{Exec, this}
use lib_tox_tun.Handlers.{
  same_state, expect, handle_connection_accepted, handle_connection_rejected,
  handle_connection_closed, handle_ip_proposal, handle_ip_accepted, handle_ip_rejected, send_to_tun,
  write_frame,
}
use lib_tox_tun.Incoming.{dispatch, handle_data_on, handle_data}
use lib_tox_tun.Closing.{after_reset, reset_and_delete-ok}

-- The state in which each packet of the negotiation is expected.
pub data ExpectedIn : PacketId → State → Type 0 where
  accept_in : ExpectedIn connection_accept own_request_pending
  reject_in : ExpectedIn connection_reject own_request_pending
  close_in : ExpectedIn connection_close connected
  proposal_in : ExpectedIn ip_proposal expecting_ip_packet
  ip_accept_in : ExpectedIn ip_accept expecting_ip_confirmation
  ip_reject_in : ExpectedIn ip_reject expecting_ip_confirmation

module _ (env : Env) (room : 0 < env.max_packet) where
  expect-other :
      (state : State) (friend : ℕ) (body : Exec (Unit {0})) (c : Connection) (function : ℕ)
      (w : World)
      → find friend w.connections ≡ some c
      → c.connected_friend ≡ friend
      → w.callback_function ≡ some function
      → same_state c.state state ≡ false
      → expect env state friend body w ≡ (ok tt, after_reset env function friend w)
  unfolding expect this
  expect-other state friend body c function w h e called other =
      rw (h, this, other) (reset_and_delete-ok env friend c function w h e called room)

  module _ (friend : ℕ) (c : Connection) (function : ℕ) (w : World)
      (h : find friend w.connections ≡ some c) (e : c.connected_friend ≡ friend)
      (called : w.callback_function ≡ some function) where
    dispatch-other :
        (again : Data → Exec (Unit {0})) (d : Data) {id : PacketId} {state : State}
        → ExpectedIn id state
        → same_state c.state state ≡ false
        → dispatch env again id friend d w ≡ (ok tt, after_reset env function friend w)
    unfolding dispatch handle_connection_accepted handle_connection_rejected
        handle_connection_closed handle_ip_proposal handle_ip_accepted handle_ip_rejected
    dispatch-other again d accept_in other =
        rw (expect-other own_request_pending friend _ c function w h e called other)
    dispatch-other again d reject_in other =
        rw (expect-other own_request_pending friend _ c function w h e called other)
    dispatch-other again d close_in other =
        rw (expect-other connected friend _ c function w h e called other)
    dispatch-other again d proposal_in other =
        rw (expect-other expecting_ip_packet friend _ c function w h e called other)
    dispatch-other again d ip_accept_in other =
        rw (expect-other expecting_ip_confirmation friend _ c function w h e called other)
    dispatch-other again d ip_reject_in other =
        rw (expect-other expecting_ip_confirmation friend _ c function w h e called other)

-- A packet of the negotiation that arrives in any state but its own: the friend is sent a reset,
-- the program is told that the connection is closed, and the connection is deleted. The callback
-- is set, and a packet of one byte fits tox.
pub unexpected_packet :
    (env : Env) (friend : ℕ) (c : Connection) (function : ℕ) (w : World) (d : Data) {id : PacketId}
    {state : State}
    → 0 < env.max_packet
    → find friend w.connections ≡ some c
    → c.connected_friend ≡ friend
    → w.callback_function ≡ some function
    → get_tox_header d ≡ ok id
    → ExpectedIn id state
    → same_state c.state state ≡ false
    → handle_data env friend d w ≡ (ok tt, after_reset env function friend w)
unfolding handle_data handle_data_on
unexpected_packet env friend c function w d room h e called named expected other =
    rw (named, handle_data_on)
      (rw (dispatch-other env room friend c function w h e called _ d expected other))

-- A data packet for a connection that is not established resets and deletes the connection, and
-- the frame is then written through the deleted object: undefined behaviour.
pub data_before_connected :
    (env : Env) (friend : ℕ) (c : Connection) (function : ℕ) (w : World) (d : Data)
    → 0 < env.max_packet
    → find friend w.connections ≡ some c
    → c.connected_friend ≡ friend
    → w.callback_function ≡ some function
    → Keyed 0 w.connections
    → get_tox_header d ≡ ok packet_data
    → same_state c.state connected ≡ false
    → (handle_data env friend d w).0 ≡ err undefined
unfolding handle_data handle_data_on dispatch send_to_tun write_frame this
data_before_connected env friend c function w d room h e called keyed named other =
    rw (named, handle_data_on)
      (rw (h, this, other, reset_and_delete-ok env friend c function w h e called room)
        (rw (find-erase_self friend 0 w.connections keyed)))
