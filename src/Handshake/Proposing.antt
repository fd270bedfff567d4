-- ===== src/Handshake/Proposing.antt =====
-- src/Connection.cpp, `sendIp`: the caller proposes a subnet, first or again.
use lib_tox_tun.Base.{ℕ, ◌+◌, ◌<◌, ◌≡◌, refl, true, some, List, [], ◌∷◌, eq_self}
use lib_tox_tun.Errors.{ok}
use lib_tox_tun.Data.{SendTox, lossless}
use lib_tox_tun.Tun.{Address}
use lib_tox_tun.Assoc.{Keyed, find, assign, find-assign_self, assign-Keyed}
use lib_tox_tun.World.{
  World, Env, Connection, own_request_pending, expecting_ip_confirmation, ℤ, pos, returned,
}
use lib_tox_tun.Handlers.{send_ip}
use lib_tox_tun.Core.{tox_packet_callback}
use lib_tox_tun.Closing.{after_send}
use lib_tox_tun.Proposal.{searched, send_ip-found}
use lib_tox_tun.Handshake.Subnets.{Next}
use lib_tox_tun.Handshake.Receiving.{
  Stands, Answers, begun, ended, run-ok, callback-handle_data, one_byte,
}
use lib_tox_tun.Handshake.Caller.{handle_data-accepted, handle_data-rejected}

module _ (env : Env) (callee function : ℕ) (room : 2 < env.max_packet)
    (takes : (now friend : ℕ) (mode : SendTox) (bytes : List ℕ)
      → env.send_status now friend mode bytes ≡ true)
    (z : ℤ) (u : World) where
  module _ (used : List Address) (uses : (now : ℕ) → env.used_addresses now ≡ returned used) (t : ℕ)
      (next : Next used z t) where
    abbrev proposed : Connection → World → World
    proposed c w =
        after_send env callee lossless (165 ∷ t ∷ 2 ∷ []) (searched callee c t (next.passed + 1) w)

    send_ip-next :
        (c : Connection) (w : World)
        → find callee w.connections ≡ some c
        → c.connected_friend ≡ callee
        → w.callback_function ≡ some function
        → c.subnet ≡ z
        → send_ip env callee w ≡ (ok tt, proposed c w)
    send_ip-next c w there named set at =
        let found =
          send_ip-found env callee c function w next.first next.passed there named set
            (rw at next.at_first) (λ i below. rw (uses (w.clock + i)) (next.taken i below))
            (rw next.reaches next.in_range)
            (rw (uses (w.clock + next.passed), next.reaches) next.is_free) room in
        rw (found, next.reaches)
          (rw (takes (w.clock + (next.passed + 1)) callee lossless (165 ∷ t ∷ 2 ∷ [])) refl)

    proposes :
        (bytes : List ℕ) (c : Connection) (w : World)
        → find callee w.connections ≡ some c
        → c.connected_friend ≡ callee
        → c.state ≡ expecting_ip_confirmation
        → w.callback_function ≡ some function
        → w.actions ≡ []
        → Keyed 0 w.connections
        → tox_packet_callback env callee bytes (begun u) ≡ (ok tt, proposed c w)
        → Answers callee
            (tox_packet_callback env callee bytes)
            u
            ((165 ∷ t ∷ 2 ∷ []) ∷ [])
            (Stands expecting_ip_confirmation (pos t) callee function)
    proposes bytes c w there named in_state set idle keyed e = (
      ended u (proposed c w),
      rw
          (
            run-ok callee (tox_packet_callback env callee bytes) u (proposed c w) e,
            idle,
            eq_self callee,
            takes (w.clock + (next.passed + 1)) callee lossless (165 ∷ t ∷ 2 ∷ []),
          )
          refl,
      record {
        c = record c { subnet = pos t };
        there = find-assign_self callee (record c { subnet = pos t }) c w.connections there;
        keyed = assign-Keyed callee 0 (record c { subnet = pos t }) w.connections keyed;
        named = named;
        in_state = in_state;
        at_subnet = refl;
        set = set;
      },
    )

    -- The callee accepted the request.
    pub searches :
        Stands own_request_pending z callee function u
        → Answers callee
            (tox_packet_callback env callee (161 ∷ []))
            u
            ((165 ∷ t ∷ 2 ∷ []) ∷ [])
            (Stands expecting_ip_confirmation (pos t) callee function)
    searches s =
        let c : Connection = record s.c { state = expecting_ip_confirmation } in
        let w : World = record (begun u) { connections = assign callee c u.connections } in
        let there = find-assign_self callee c s.c u.connections s.there in
        proposes (161 ∷ []) c w there s.named refl s.set refl
          (assign-Keyed callee 0 c u.connections s.keyed)
          (callback-handle_data env callee (161 ∷ []) (begun u) (proposed c w) (one_byte 161)
            s.there
            (handle_data-accepted env callee function room takes z u (begun u) s.c s.there
              (proposed c w) s.in_state (send_ip-next c w there s.named s.set s.at_subnet)))

    -- The callee uses the subnet that was proposed.
    pub retries :
        Stands expecting_ip_confirmation z callee function u
        → Answers callee
            (tox_packet_callback env callee (167 ∷ []))
            u
            ((165 ∷ t ∷ 2 ∷ []) ∷ [])
            (Stands expecting_ip_confirmation (pos t) callee function)
    retries s = proposes (167 ∷ []) s.c (begun u) s.there s.named s.in_state s.set refl s.keyed (
        callback-handle_data env callee (167 ∷ []) (begun u) (proposed s.c (begun u)) (one_byte 167)
          s.there
          (handle_data-rejected env callee function room takes z u (begun u) s.c s.there
            (proposed s.c (begun u)) s.in_state
            (send_ip-next s.c (begun u) s.there s.named s.set s.at_subnet)))
