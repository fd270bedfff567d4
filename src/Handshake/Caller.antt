-- ===== src/Handshake/Caller.antt =====
-- src/ToxTunCore.cpp and src/Connection.cpp: the peer who asks for a connection.
use lib_tox_tun.Base.{
  ℕ, ◌+◌, ◌%◌, ◌<◌, ◌≤◌, ◌≡◌, refl, true, none, some, List, [], ◌∷◌, arith, eq_self,
}
use lib_tox_tun.Errors.{ok}
use lib_tox_tun.Data.{connection_request, SendTox, lossless, get_tox_header, get_send_tox, to_byte}
use lib_tox_tun.Assoc.{
  Keyed, find, assign, emplace, find-emplace, find-assign_self, assign-Keyed, emplace-Keyed,
}
use lib_tox_tun.World.{
  World, Env, Connection, own_request_pending, expecting_ip_confirmation, connected, ℤ, pos, negsuc,
  returned, tun_opened,
}
use lib_tox_tun.World.Exec.{this, store, callback}
use lib_tox_tun.Connection.{fresh, construct, send_connection_request}
use lib_tox_tun.Handlers.{
  expect, set_ip, send_ip, handle_connection_accepted, handle_ip_accepted, handle_ip_rejected,
}
use lib_tox_tun.Incoming.{dispatch, handle_data_on, handle_data}
use lib_tox_tun.Core.{tox_packet_callback, emplace_connection, send_request}
use lib_tox_tun.Closing.{bare, from_packet_id-bare, after_send, send_to_tox_from-fits}
use lib_tox_tun.Negotiation.{established}
use lib_tox_tun.Handshake.{address}
use lib_tox_tun.Handshake.Receiving.{
  Stands, Answers, begun, ended, run-ok, packet, callback-handle_data, one_byte,
}

module _ (env : Env) (callee function : ℕ) (room : 2 < env.max_packet)
    (takes : (now friend : ℕ) (mode : SendTox) (bytes : List ℕ)
      → env.send_status now friend mode bytes ≡ true) where
  -- A connection was added, after its request was sent.
  abbrev requested : World → World
  requested w =
      let sent =
        after_send env callee lossless (160 ∷ [])
          (record w { clock = w.clock + 1 + 1; actions = tun_opened callee ∷ w.actions }) in
      record sent {
        connections =
            emplace callee (fresh env callee true (env.self_udp_port w.clock)) w.connections;
      }

  send_request-asks :
      (w : World)
      → find callee w.connections ≡ none
      → env.open_tun (w.clock + 1) ≡ returned tt
      → send_request env callee w ≡ (ok tt, requested w)
  unfolding send_request emplace_connection construct send_connection_request to_byte
  send_request-asks w new opens =
      let opened : World = record w {
        clock = w.clock + 1 + 1;
        actions = tun_opened callee ∷ w.actions;
      } in
      let sent =
        send_to_tox_from-fits env (bare connection_request) callee none lossless opened
          (omega arith) refl (unfold get_send_tox in refl) in
      let took = takes (w.clock + 1 + 1) callee lossless (160 ∷ []) in
      rw (new, opens) (rw (from_packet_id-bare connection_request) (rw sent (rw took refl)))

  -- The program asks.
  pub asks :
      (u : World)
      → find callee u.connections ≡ none
      → Keyed 0 u.connections
      → u.callback_function ≡ some function
      → ((now : ℕ) → env.open_tun now ≡ returned tt)
      → Answers callee
          (send_request env callee)
          u
          ((160 ∷ []) ∷ [])
          (Stands own_request_pending (negsuc 0) callee function)
  asks u new keyed set opens =
      let c : Connection = fresh env callee true (env.self_udp_port u.clock) in
      (
        ended u (requested (begun u)),
        rw
            (
              run-ok callee (send_request env callee) u (requested (begun u))
                  (send_request-asks (begun u) new (opens (u.clock + 1))),
              eq_self callee,
              takes (u.clock + 1 + 1) callee lossless (160 ∷ []),
            )
            refl,
        record {
          c = c;
          there = rw (find-emplace callee callee 0 c u.connections keyed new, eq_self callee) refl;
          keyed = emplace-Keyed callee 0 c u.connections (omega arith) keyed;
          named = refl;
          in_state = refl;
          at_subnet = refl;
          set = set;
        },
      )

  module _ (z : ℤ) (u : World) where
    module _ (w : World) (c : Connection) (there : find callee w.connections ≡ some c) where
      pub handle_data-accepted :
          (w' : World)
          → c.state ≡ own_request_pending
          → send_ip env callee (record w {
            connections =
                assign callee (record c { state = expecting_ip_confirmation }) w.connections;
          })
            ≡ (ok tt, w')
          → handle_data env callee (packet (161 ∷ [])) w ≡ (ok tt, w')
      unfolding handle_data handle_data_on dispatch handle_connection_accepted expect this store
          get_tox_header
      handle_data-accepted w' in_state e = rw (there, in_state) (rw (there, e) refl)

      pub handle_data-rejected :
          (w' : World)
          → c.state ≡ expecting_ip_confirmation
          → send_ip env callee w ≡ (ok tt, w')
          → handle_data env callee (packet (167 ∷ [])) w ≡ (ok tt, w')
      unfolding handle_data handle_data_on dispatch handle_ip_rejected expect this get_tox_header
      handle_data-rejected w' in_state e = rw (there, in_state) (rw e refl)

      handle_data-confirmed :
          (t : ℕ)
          → c.state ≡ expecting_ip_confirmation
          → c.subnet ≡ pos t
          → t ≤ 255
          → c.connected_friend ≡ callee
          → w.callback_function ≡ some function
          → handle_data env callee (packet (166 ∷ [])) w
            ≡ (ok tt, established callee c function t 1 w)
      unfolding handle_data handle_data_on dispatch handle_ip_accepted expect this store
          get_tox_header set_ip callback
      handle_data-confirmed t in_state at inside named set =
          let small : t % 256 ≡ t = omega arith in
          rw (there, in_state)
            (rw (there, at, small) (rw (there, named, set, callback) (rw at refl)))

    -- The callee agreed to the proposal.
    pub confirmed :
        (t : ℕ)
        → t ≤ 255
        → Stands expecting_ip_confirmation (pos t) callee function u
        → Answers callee (tox_packet_callback env callee (166 ∷ [])) u [] (λ u'.
          Stands connected (pos t) callee function u' × (address callee u'.actions ≡ some (t, 1)))
    confirmed t inside s =
        let told = established callee s.c function t 1 (begun u) in
        (
          ended u told,
          run-ok callee (tox_packet_callback env callee (166 ∷ [])) u told (
              callback-handle_data env callee (166 ∷ []) (begun u) told (one_byte 166) s.there (
                handle_data-confirmed (begun u) s.c s.there t s.in_state s.at_subnet inside s.named
                  s.set)),
          (
            record {
              c = record s.c { state = connected };
              there =
                  find-assign_self callee (record s.c { state = connected }) s.c u.connections
                    s.there;
              keyed =
                  assign-Keyed callee 0 (record s.c { state = connected }) u.connections s.keyed;
              named = s.named;
              in_state = refl;
              at_subnet = s.at_subnet;
              set = s.set;
            },
            rw (eq_self callee) refl,
          ),
        )
