-- ===== src/Handshake/Callee.antt =====
-- src/ToxTunCore.cpp and src/Connection.cpp: the peer who is asked for a connection.
use lib_tox_tun.Base.{
  ℕ, ◌+◌, ◌<◌, ◌≡◌, refl, true, false, none, some, List, [], ◌∷◌, arith, eq_self,
}
use lib_tox_tun.Data.{SendTox, lossless, get_tox_header}
use lib_tox_tun.Tun.{Address, none_in_subnet}
use lib_tox_tun.Assoc.{Keyed, find, find-emplace, find-assign_self, assign-Keyed, emplace-Keyed}
use lib_tox_tun.World.{
  World, Env, Connection, friends_request_pending, expecting_ip_packet, connected, ℤ, negsuc,
  returned,
}
use lib_tox_tun.Connection.{fresh}
use lib_tox_tun.Core.{tox_packet_callback, accept_connection}
use lib_tox_tun.Closing.{after_send}
use lib_tox_tun.Lifecycle.{ringing, handle_packet-request}
use lib_tox_tun.Accepting.{accepted, accept_connection-ringing}
use lib_tox_tun.Negotiation.{
  established, asked, handle_data-proposal_accepted, handle_data-proposal_rejected,
}
use lib_tox_tun.Handshake.{address}
use lib_tox_tun.Handshake.Receiving.{
  Stands, Answers, begun, ended, run-ok, packet, callback-handle_packet, callback-handle_data,
  one_byte, three_bytes,
}

module _ (env : Env) (caller function : ℕ) (room : 2 < env.max_packet)
    (takes : (now friend : ℕ) (mode : SendTox) (bytes : List ℕ)
      → env.send_status now friend mode bytes ≡ true) where
  -- The request arrives, and the program is told.
  pub rings :
      (v : World)
      → find caller v.connections ≡ none
      → Keyed 0 v.connections
      → v.callback_function ≡ some function
      → ((now : ℕ) → env.open_tun now ≡ returned tt)
      → Answers caller
          (tox_packet_callback env caller (160 ∷ []))
          v
          []
          (Stands friends_request_pending (negsuc 0) caller function)
  rings v new keyed set opens =
      let c : Connection = fresh env caller false (env.self_udp_port v.clock) in
      let told = ringing env function caller (begun v) in
      (
        ended v told,
        run-ok caller (tox_packet_callback env caller (160 ∷ [])) v told (
            callback-handle_packet env caller (160 ∷ []) (begun v) told (one_byte 160)
              (handle_packet-request env caller (caller + 1) function (packet (160 ∷ [])) (begun v)
                new keyed set (unfold get_tox_header in refl) (opens (v.clock + 1))
                (omega arith)).0),
        record {
          c = c;
          there = rw (find-emplace caller caller 0 c v.connections keyed new, eq_self caller) refl;
          keyed = emplace-Keyed caller 0 c v.connections (omega arith) keyed;
          named = refl;
          in_state = refl;
          at_subnet = refl;
          set = set;
        },
      )

  module _ (z : ℤ) (v : World) where
    -- The program accepts.
    pub accepts :
        Stands friends_request_pending z caller function v
        → Answers caller
            (accept_connection env caller)
            v
            ((161 ∷ []) ∷ [])
            (Stands expecting_ip_packet z caller function)
    accepts s =
        let told = after_send env caller lossless (161 ∷ []) (accepted caller s.c (begun v)) in
        (
          ended v told,
          rw
              (
                run-ok caller (accept_connection env caller) v told (
                    accept_connection-ringing env caller s.c (begun v) (omega arith) s.there s.named
                      s.in_state (takes v.clock caller lossless (161 ∷ []))),
                eq_self caller,
                takes v.clock caller lossless (161 ∷ []),
              )
              refl,
          record {
            c = record s.c { state = expecting_ip_packet };
            there =
                find-assign_self caller (record s.c { state = expecting_ip_packet }) s.c
                  v.connections s.there;
            keyed =
                assign-Keyed caller 0 (record s.c { state = expecting_ip_packet }) v.connections
                  s.keyed;
            named = s.named;
            in_state = refl;
            at_subnet = s.at_subnet;
            set = s.set;
          },
        )

    module _ (used : List Address) (uses : (now : ℕ) → env.used_addresses now ≡ returned used)
        (t : ℕ) (s : Stands expecting_ip_packet z caller function v) where
      -- The subnet is used.
      pub refuses :
          none_in_subnet t used ≡ false
          → Answers caller
              (tox_packet_callback env caller (165 ∷ t ∷ 2 ∷ []))
              v
              ((167 ∷ []) ∷ [])
              (Stands expecting_ip_packet z caller function)
      refuses taken =
          let told = after_send env caller lossless (167 ∷ []) (asked (begun v)) in
          let sent = takes (v.clock + 1) caller lossless (167 ∷ []) in
          (
            ended v told,
            rw
                (
                  run-ok caller (tox_packet_callback env caller (165 ∷ t ∷ 2 ∷ [])) v told (
                      callback-handle_data env caller (165 ∷ t ∷ 2 ∷ []) (begun v) told
                        (three_bytes 165 t 2) s.there
                        (handle_data-proposal_rejected env caller s.c function (begun v) t 2
                          (omega arith) s.there s.named s.set s.in_state (rw (uses v.clock) taken)
                          sent)),
                  eq_self caller,
                  sent,
                )
                refl,
            record {
              c = s.c;
              there = s.there;
              keyed = s.keyed;
              named = s.named;
              in_state = s.in_state;
              at_subnet = s.at_subnet;
              set = s.set;
            },
          )

      -- The subnet is not used.
      pub agrees :
          none_in_subnet t used ≡ true
          → Answers caller
              (tox_packet_callback env caller (165 ∷ t ∷ 2 ∷ []))
              v
              ((166 ∷ []) ∷ [])
              (λ v'.
                Stands connected z caller function v' × (address caller v'.actions ≡ some (t, 2)))
      agrees free =
          let told =
            established caller s.c function t 2
              (after_send env caller lossless (166 ∷ []) (asked (begun v))) in
          let sent = takes (v.clock + 1) caller lossless (166 ∷ []) in
          (
            ended v told,
            rw
                (
                  run-ok caller (tox_packet_callback env caller (165 ∷ t ∷ 2 ∷ [])) v told (
                      callback-handle_data env caller (165 ∷ t ∷ 2 ∷ []) (begun v) told
                        (three_bytes 165 t 2) s.there
                        (handle_data-proposal_accepted env caller s.c function (begun v) t 2
                          (omega arith) s.there s.named s.set s.in_state (rw (uses v.clock) free)
                          sent)),
                  eq_self caller,
                  sent,
                )
                refl,
            (
              record {
                c = record s.c { state = connected };
                there =
                    find-assign_self caller (record s.c { state = connected }) s.c v.connections
                      s.there;
                keyed =
                    assign-Keyed caller 0 (record s.c { state = connected }) v.connections s.keyed;
                named = s.named;
                in_state = refl;
                at_subnet = s.at_subnet;
                set = s.set;
              },
              rw (eq_self caller) refl,
            ),
          )
