-- ===== src/Handshake/Parting.antt =====
-- src/ToxTunCore.cpp and src/Connection.cpp: one of two connected peers closes the connection.
use lib_tox_tun.Base.{ℕ, ◌+◌, ◌<◌, ◌≡◌, refl, true, Option, some, List, [], ◌∷◌, arith, eq_self}
use lib_tox_tun.Errors.{ok}
use lib_tox_tun.Data.{SendTox, lossless, get_tox_header}
use lib_tox_tun.Assoc.{find-erase_self}
use lib_tox_tun.World.{
  World, Env, connection_closed, connected, disconnected, callback_called, tun_closed, ℤ,
}
use lib_tox_tun.World.Exec.{this}
use lib_tox_tun.Handlers.{expect, handle_connection_closed}
use lib_tox_tun.Incoming.{dispatch, handle_data_on, handle_data}
use lib_tox_tun.Core.{tox_packet_callback, close_connection, get_connection_state}
use lib_tox_tun.Closing.{after_callback, after_delete, callback-set, delete_connection-ok}
use lib_tox_tun.Lifecycle.{closed, close_connection-closes}
use lib_tox_tun.Handshake.{run, talk, then_some}
use lib_tox_tun.Handshake.Receiving.{
  Stands, Answers, begun, ended, run-ok, packet, callback-handle_data, one_byte,
}

module _ (env : Env) (friend function : ℕ) (z : ℤ) (w : World)
    (s : Stands connected z friend function w) where
  -- The program closes the connection.
  closes :
      0 < env.max_packet
      → ((now to : ℕ) (mode : SendTox) (bytes : List ℕ) → env.send_status now to mode bytes ≡ true)
      → Answers friend
          (close_connection env friend)
          w
          ((163 ∷ []) ∷ [])
          (λ w'. get_connection_state friend w' ≡ disconnected)
  unfolding get_connection_state
  closes room takes =
      let left = closed env function connected friend (begun w) in
      let (done, rejected, gone, others) =
        close_connection-closes env friend (friend + 1) s.c function (begun w) room s.there s.named
          s.set s.keyed (omega arith) in
      (
        ended w left,
        rw
            (
              run-ok friend (close_connection env friend) w left (rw s.in_state at done),
              eq_self friend,
              takes w.clock friend lossless (163 ∷ []),
            )
            refl,
        rw (find-erase_self friend 0 w.connections s.keyed, get_connection_state) refl,
      )

  handle_data-closed : handle_data env friend (packet (163 ∷ [])) (begun w) ≡ (
    ok tt,
    after_delete env friend (after_callback env function connection_closed friend (begun w)),
  )
  unfolding handle_data handle_data_on dispatch handle_connection_closed expect this get_tox_header
  handle_data-closed =
      let told = after_callback env function connection_closed friend (begun w) in
      rw (s.there, s.in_state)
        (rw (s.there, s.named)
          (rw
            (
              callback-set env function connection_closed friend (begun w) s.set,
              delete_connection-ok env friend s.c told s.there s.named,
            )
            refl))

  -- The close arrives.
  closed_by : Answers friend (tox_packet_callback env friend (163 ∷ [])) w [] (λ w'.
      (get_connection_state friend w' ≡ disconnected)
      × (w'.actions
          ≡ tun_closed friend
            ∷ callback_called function connection_closed friend w.callback_user_data
            ∷ w.actions))
  unfolding get_connection_state
  closed_by =
      let left =
        after_delete env friend (after_callback env function connection_closed friend (begun w)) in
      (
        ended w left,
        run-ok friend (tox_packet_callback env friend (163 ∷ [])) w left (
            callback-handle_data env friend (163 ∷ []) (begun w) left (one_byte 163) s.there
              handle_data-closed),
        (rw (find-erase_self friend 0 w.connections s.keyed, get_connection_state) refl, refl),
      )

-- One peer closes the connection, and the other is given what tox took.
abbrev pub part : Env → Env → ℕ → ℕ → World → World → Option (World × World)
part a b caller callee u v =
    then_some (run callee (close_connection a callee) u)
      (λ left. talk a b caller callee 1 left.0 v left.1 [])

-- One of two connected peers closes the connection, and tox carries every packet: every call
-- returns, both end disconnected, and the other peer does nothing but tell its program and close
-- its tun interface. The programs have set a callback, each map is in the order of its keys, and a
-- packet of one byte fits tox.
pub part-disconnected :
    (a b : Env) (caller callee fa fb : ℕ) (za zb : ℤ) (u v : World)
    → 0 < a.max_packet
    → ((now to : ℕ) (mode : SendTox) (bytes : List ℕ) → a.send_status now to mode bytes ≡ true)
    → Stands connected za callee fa u
    → Stands connected zb caller fb v
    → (u' : World) × (v' : World) × (part a b caller callee u v ≡ some (u', v'))
      × (get_connection_state callee u' ≡ disconnected)
      × (get_connection_state caller v' ≡ disconnected)
      × (v'.actions
          ≡ tun_closed caller
            ∷ callback_called fb connection_closed caller v.callback_user_data
            ∷ v.actions)
part-disconnected a b caller callee fa fb za zb u v room takes su sv =
    let (u', sent, gone) = closes a callee fa za u su room takes in
    let (v', taken, (left, told)) = closed_by b caller fb zb v sv in
    (u', v', rw (sent, taken) refl, gone, left, told)
