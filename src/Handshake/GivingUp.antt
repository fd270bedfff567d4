-- ===== src/Handshake/GivingUp.antt =====
-- src/Connection.cpp: a caller who finds no subnet, and a callee who is told by a reset.
use lib_tox_tun.Base.{ℕ, ◌+◌, ◌<◌, ◌≡◌, refl, true, none, some, List, [], ◌∷◌, arith, eq_self}
use lib_tox_tun.Errors.{ok}
use lib_tox_tun.Data.{SendTox, lossless, get_tox_header}
use lib_tox_tun.Tun.{Address}
use lib_tox_tun.Assoc.{Keyed, find, assign, find-erase_self, find-assign_self, assign-Keyed}
use lib_tox_tun.World.{
  World, Env, Connection, connection_closed, own_request_pending, expecting_ip_packet,
  expecting_ip_confirmation, ℤ, pos, returned,
}
use lib_tox_tun.World.Exec.{this}
use lib_tox_tun.Handlers.{send_ip, handle_connection_reset}
use lib_tox_tun.Incoming.{dispatch, handle_data_on, handle_data}
use lib_tox_tun.Core.{tox_packet_callback}
use lib_tox_tun.Closing.{
  after_callback, after_delete, after_reset, callback-set, delete_connection-ok,
}
use lib_tox_tun.Proposal.{searched, send_ip-exhausted}
use lib_tox_tun.Handshake.Subnets.{Over}
use lib_tox_tun.Handshake.Receiving.{
  Stands, Answers, begun, ended, run-ok, packet, callback-handle_data, one_byte,
}
use lib_tox_tun.Handshake.Caller.{handle_data-accepted, handle_data-rejected}

abbrev pub Gone : ℕ → World → Type 0
Gone friend w = find friend w.connections ≡ none

module _ (env : Env) (friend function : ℕ) where
  -- A reset of the friend ends the connection.
  handle_data-reset :
      (c : Connection) (w : World)
      → find friend w.connections ≡ some c
      → c.connected_friend ≡ friend
      → w.callback_function ≡ some function
      → handle_data env friend (packet (164 ∷ [])) w
        ≡ (ok tt, after_delete env friend (after_callback env function connection_closed friend w))
  unfolding handle_data handle_data_on dispatch handle_connection_reset this get_tox_header
  handle_data-reset c w there named set =
      rw (there, named)
        (rw
          (
            callback-set env function connection_closed friend w set,
            delete_connection-ok env friend c
                (after_callback env function connection_closed friend w) there named,
          )
          refl)

  pub reset_by :
      (z : ℤ) (v : World)
      → Stands expecting_ip_packet z friend function v
      → Answers friend (tox_packet_callback env friend (164 ∷ [])) v [] (Gone friend)
  reset_by z v s =
      let left =
        after_delete env friend (after_callback env function connection_closed friend (begun v)) in
      (
        ended v left,
        run-ok friend (tox_packet_callback env friend (164 ∷ [])) v left (
            callback-handle_data env friend (164 ∷ []) (begun v) left (one_byte 164) s.there
              (handle_data-reset s.c (begun v) s.there s.named s.set)),
        find-erase_self friend 0 v.connections s.keyed,
      )

  module _ (room : 2 < env.max_packet)
      (takes : (now friend : ℕ) (mode : SendTox) (bytes : List ℕ)
        → env.send_status now friend mode bytes ≡ true)
      (used : List Address) (uses : (now : ℕ) → env.used_addresses now ≡ returned used) (z : ℤ)
      (u : World) (over : Over used z) where
    abbrev given_up : Connection → World → World
    given_up c w = after_reset env function friend (searched friend c 256 (over.passed + 1) w)

    send_ip-over :
        (c : Connection) (w : World)
        → find friend w.connections ≡ some c
        → c.connected_friend ≡ friend
        → w.callback_function ≡ some function
        → c.subnet ≡ z
        → send_ip env friend w ≡ (ok tt, given_up c w)
    send_ip-over c w there named set at =
        send_ip-exhausted env friend c function w over.first over.passed there named set
          (rw at over.at_first) (λ i below. rw (uses (w.clock + i)) (over.taken i below))
          over.reaches (omega arith)

    gives_up :
        (bytes : List ℕ) (c : Connection) (w : World)
        → w.actions ≡ []
        → Keyed 0 w.connections
        → tox_packet_callback env friend bytes (begun u) ≡ (ok tt, given_up c w)
        → Answers friend (tox_packet_callback env friend bytes) u ((164 ∷ []) ∷ []) (Gone friend)
    gives_up bytes c w idle keyed e = (
      ended u (given_up c w),
      rw
          (
            run-ok friend (tox_packet_callback env friend bytes) u (given_up c w) e,
            idle,
            eq_self friend,
            takes (w.clock + (over.passed + 1)) friend lossless (164 ∷ []),
          )
          refl,
      find-erase_self friend 0 (assign friend (record c { subnet = pos 256 }) w.connections)
          (assign-Keyed friend 0 (record c { subnet = pos 256 }) w.connections keyed),
    )

    pub gives_up_first :
        Stands own_request_pending z friend function u
        → Answers friend
            (tox_packet_callback env friend (161 ∷ []))
            u
            ((164 ∷ []) ∷ [])
            (Gone friend)
    gives_up_first s =
        let c : Connection = record s.c { state = expecting_ip_confirmation } in
        let w : World = record (begun u) { connections = assign friend c u.connections } in
        let there = find-assign_self friend c s.c u.connections s.there in
        gives_up (161 ∷ []) c w refl (assign-Keyed friend 0 c u.connections s.keyed) (
          callback-handle_data env friend (161 ∷ []) (begun u) (given_up c w) (one_byte 161) s.there
            (handle_data-accepted env friend function room takes z u (begun u) s.c s.there
              (given_up c w) s.in_state (send_ip-over c w there s.named s.set s.at_subnet)))

    pub gives_up_later :
        Stands expecting_ip_confirmation z friend function u
        → Answers friend
            (tox_packet_callback env friend (167 ∷ []))
            u
            ((164 ∷ []) ∷ [])
            (Gone friend)
    gives_up_later s = gives_up (167 ∷ []) s.c (begun u) refl s.keyed (
        callback-handle_data env friend (167 ∷ []) (begun u) (given_up s.c (begun u)) (one_byte 167)
          s.there
          (handle_data-rejected env friend function room takes z u (begun u) s.c s.there
            (given_up s.c (begun u)) s.in_state
            (send_ip-over s.c (begun u) s.there s.named s.set s.at_subnet)))
