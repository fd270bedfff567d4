-- ===== src/Negotiation.antt =====
-- src/Connection.cpp, `handleIpProposal`: the answer to a proposal.
use lib_tox_tun.Base.{ℕ, ◌+◌, ◌<◌, ◌≡◌, refl, true, false, some, [], ◌∷◌, arith}
use lib_tox_tun.Errors.{ok, err, undefined}
use lib_tox_tun.Data.{
  Data, PacketId, ip_accept, ip_reject, lossless, get_send_tox, get_tox_header, get_ip_postfix,
  get_ip_subnet, to_byte,
}
use lib_tox_tun.Assoc.{Keyed, find, assign, find-erase_self}
use lib_tox_tun.World.{
  World, Env, Connection, expecting_ip_packet, connected, connection_accepted, ip_set,
  callback_called, packet_sent,
}
use lib_tox_tun.World.Exec.{noexcept, this, store, callback}
use lib_tox_tun.Connection.{send_to_tox}
use lib_tox_tun.Handlers.{expect, send_or_reset, set_ip, answer_proposal, handle_ip_proposal}
use lib_tox_tun.Incoming.{dispatch, handle_data_on, handle_data}
use lib_tox_tun.Closing.{
  bare, from_packet_id-bare, after_send, reset_and_delete-ok, send_to_tox_from-fits,
}
use lib_tox_tun.Proposal.{free_at, assume_unused-asks}

-- A proposal of a subnet and of the own postfix.
abbrev pub proposal_of : ℕ → ℕ → Data
proposal_of subnet postfix = record { bytes = 165 ∷ subnet ∷ postfix ∷ []; tox_header_set = true }

-- The address of the tun interface is set, the connection established, and the program told.
abbrev pub established : ℕ → Connection → ℕ → ℕ → ℕ → World → World
established friend c function subnet postfix w = record w {
  connections = assign friend (record c { state = connected }) w.connections;
  actions =
      callback_called function connection_accepted friend w.callback_user_data
      ∷ ip_set friend subnet postfix
      ∷ w.actions;
}

-- The world after the question whether the subnet is used.
abbrev pub asked : World → World
asked w = record w { clock = w.clock + 1 }

module _ (env : Env) (friend : ℕ) (c : Connection) (function : ℕ) (w : World) (subnet postfix : ℕ)
    (room : 0 < env.max_packet) (h : find friend w.connections ≡ some c)
    (named : c.connected_friend ≡ friend) (set : w.callback_function ≡ some function)
    (expects : c.state ≡ expecting_ip_packet) where
  send_bare-accepted :
      (id : PacketId)
      → get_send_tox (bare id) ≡ ok lossless
      → env.send_status (w.clock + 1) friend lossless (to_byte id ∷ []) ≡ true
      → send_or_reset env friend (bare id) (asked w)
        ≡ (ok tt, after_send env friend lossless (to_byte id ∷ []) (asked w))
  unfolding send_or_reset send_to_tox this
  send_bare-accepted id sends accepted = rw (
    h,
    named,
    send_to_tox_from-fits env (bare id) friend (some friend) lossless (asked w) (omega arith) refl
        sends,
    accepted,
  )

  handle_data-proposal :
      handle_data env friend (proposal_of subnet postfix) w
      ≡ noexcept (noexcept (answer_proposal env friend postfix subnet)) w
  unfolding handle_data handle_data_on dispatch handle_ip_proposal expect this get_tox_header
      get_ip_postfix get_ip_subnet to_byte
  handle_data-proposal = rw (h, expects)

  -- A proposal of a subnet that nobody uses, in the state that expects one: tox takes the accept,
  -- the tun interface gets the address of the proposal, the connection is established, and the
  -- program is told.
  pub handle_data-proposal_accepted :
      free_at env w.clock subnet ≡ true
      → env.send_status (w.clock + 1) friend lossless (166 ∷ []) ≡ true
      → handle_data env friend (proposal_of subnet postfix) w ≡ (
        ok tt,
        established friend c function subnet postfix
            (after_send env friend lossless (166 ∷ []) (asked w)),
      )
  unfolding answer_proposal set_ip this store callback to_byte
  handle_data-proposal_accepted free accepted =
      rw
        (
          handle_data-proposal,
          assume_unused-asks env subnet w,
          free,
          from_packet_id-bare ip_accept,
          send_bare-accepted ip_accept (unfold get_send_tox in refl) accepted,
        )
        (rw (h, named, set, callback))

  -- A proposal of a subnet that is used is answered by a reject, and nothing else changes.
  pub handle_data-proposal_rejected :
      free_at env w.clock subnet ≡ false
      → env.send_status (w.clock + 1) friend lossless (167 ∷ []) ≡ true
      → handle_data env friend (proposal_of subnet postfix) w
        ≡ (ok tt, after_send env friend lossless (167 ∷ []) (asked w))
  unfolding answer_proposal to_byte
  handle_data-proposal_rejected used accepted = rw (
    handle_data-proposal,
    assume_unused-asks env subnet w,
    used,
    from_packet_id-bare ip_reject,
    send_bare-accepted ip_reject (unfold get_send_tox in refl) accepted,
  )

  -- If tox does not take the accept, the connection is reset and deleted, and the address is then
  -- set through the deleted object: undefined behaviour.
  pub handle_data-proposal_undelivered :
      Keyed 0 w.connections
      → free_at env w.clock subnet ≡ true
      → env.send_status (w.clock + 1) friend lossless (166 ∷ []) ≡ false
      → (handle_data env friend (proposal_of subnet postfix) w).0 ≡ err undefined
  unfolding answer_proposal set_ip send_or_reset send_to_tox this to_byte
  handle_data-proposal_undelivered keyed free refused =
      let sent =
        send_to_tox_from-fits env (bare ip_accept) friend (some friend) lossless (asked w)
          (omega arith) refl (unfold get_send_tox in refl) in
      let after : World = record (asked w) {
        clock = w.clock + 1 + 1;
        actions = packet_sent friend lossless (166 ∷ []) false ∷ w.actions;
      } in
      rw
        (handle_data-proposal, assume_unused-asks env subnet w, free, from_packet_id-bare ip_accept)
        (rw (h, named, sent, refused)
          (rw (reset_and_delete-ok env friend c function after h named set room)
            (rw (find-erase_self friend 0 w.connections keyed))))
