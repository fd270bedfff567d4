-- ===== src/Invariant/Closing.antt =====
-- src/Connection.cpp, `resetConnection`, `deleteConnection`, `~Connection`: ending a connection keeps
-- the others sound.
use lib_tox_tun.Base.{
  ℕ, ◌≤◌, ◌<◌, ◌≡◌, refl, true, Option, none, some, arith, Option-cases, Bool-cases, inl, inr,
  length,
}
use lib_tox_tun.Errors.{ok}
use lib_tox_tun.Data.{Data, lossless, connection_reject, connection_close, get_send_tox}
use lib_tox_tun.Assoc.{find, erase, erase-Keyed}
use lib_tox_tun.Assoc.Every.{erase-Every, find-Every}
use lib_tox_tun.World.{
  World, Env, Connection, State, own_request_pending, friends_request_pending, expecting_ip_packet,
  expecting_ip_confirmation, connected, deleting, connection_closed,
}
use lib_tox_tun.World.Exec.{◌>>◌, noexcept, this, callback}
use lib_tox_tun.Connection.{
  reset_connection, send_to_tox, reset_friend, say_goodbye, destroy, erase_connection,
  delete_connection, reset_and_delete_connection,
}
use lib_tox_tun.Handlers.{send_or_reset}
use lib_tox_tun.Closing.{
  delete_connection-ok, reset_and_delete-ok, reset_and_delete-terminates, reset_friend-sends,
  send_id-lossless, send_to_tox_from-fits,
}
use lib_tox_tun.Invariant.{
  IsSound, IsValid, Fine, Safe, Safe-noexcept, Safe-bind, Safe-this, Safe-callback, Safe-try_catch,
}

pub erase-IsValid :
    (friend : ℕ) (w : World)
    → IsValid w
    → IsValid (record w { connections = erase friend w.connections })
erase-IsValid friend w v =
    (erase-Keyed friend 0 w.connections v.0, erase-Every IsSound friend w.connections v.1)

module _ (env : Env) (room : 2 < env.max_packet) where
  pub Safe-reset_friend : (friend : ℕ) → Safe (reset_friend env friend)
  Safe-reset_friend friend w v = rw (reset_friend-sends env friend w (omega arith)) v

  Safe-reset_and_tell :
      (friend : ℕ) → Safe (noexcept (reset_friend env friend >> callback connection_closed friend))
  Safe-reset_and_tell friend = Safe-noexcept _ (
      Safe-bind (reset_friend env friend) _ (Safe-reset_friend friend)
        (λ done. Safe-callback connection_closed friend))

  Safe-say_goodbye : (state : State) (friend : ℕ) → Safe (say_goodbye env state friend)
  unfolding say_goodbye
  Safe-say_goodbye friends_request_pending friend w v =
      rw
        (send_id-lossless env connection_reject friend w (omega arith)
          (unfold get_send_tox in refl))
        v
  Safe-say_goodbye connected friend w v =
      rw
        (send_id-lossless env connection_close friend w (omega arith) (unfold get_send_tox in refl))
        v
  Safe-say_goodbye own_request_pending friend w v = Safe-reset_and_tell friend w v
  Safe-say_goodbye expecting_ip_packet friend w v = Safe-reset_and_tell friend w v
  Safe-say_goodbye expecting_ip_confirmation friend w v = Safe-reset_and_tell friend w v
  Safe-say_goodbye deleting friend w v = v

  Safe-destroy : (o : Option Connection) → Safe (destroy env o)
  unfolding destroy
  Safe-destroy none w v = v
  Safe-destroy (some c) w v =
      Safe-bind (say_goodbye env c.state c.connected_friend) _
        (Safe-say_goodbye c.state c.connected_friend) (λ done w v. v) w v

  pub Safe-erase_connection : (friend : ℕ) → Safe (erase_connection env friend)
  unfolding erase_connection
  Safe-erase_connection friend w v =
      Safe-destroy (find friend w.connections) _ (erase-IsValid friend w v)

  pub Safe-delete_connection : (friend : ℕ) → Safe (delete_connection env friend)
  Safe-delete_connection friend w v = elim (Option-cases (find friend w.connections)) [
    | inl absent ↦ unfold delete_connection this in rw (absent, this) tt
    | inr (c, h) ↦
        let s = find-Every IsSound friend w.connections c v.1 h in
        rw (delete_connection-ok env friend c w h s.own_key) (erase-IsValid friend w v)
  ]

  -- Only the other connections have to be sound.
  pub reset_and_delete-Fine :
      (friend : ℕ) (c : Connection) (w : World)
      → find friend w.connections ≡ some c
      → c.connected_friend ≡ friend
      → IsValid (record w { connections = erase friend w.connections })
      → Fine
          (reset_and_delete_connection env friend w).0
          (reset_and_delete_connection env friend w).1
  reset_and_delete-Fine friend c w h named v = elim (Option-cases w.callback_function) [
    | inl unset ↦ rw (reset_and_delete-terminates env friend c w h unset (omega arith)) tt
    | inr (function, set) ↦
        rw (reset_and_delete-ok env friend c function w h named set (omega arith)) v
  ]

  pub Safe-reset_and_delete : (friend : ℕ) → Safe (reset_and_delete_connection env friend)
  Safe-reset_and_delete friend w v = elim (Option-cases (find friend w.connections)) [
    | inl absent ↦ unfold reset_and_delete_connection reset_connection this in rw (absent, this) tt
    | inr (c, h) ↦
        let s = find-Every IsSound friend w.connections c v.1 h in
        reset_and_delete-Fine friend c w h s.own_key (erase-IsValid friend w v)
  ]

  Safe-send_small :
      (friend : ℕ) (d : Data)
      → length d.bytes ≤ 3
      → d.tox_header_set ≡ true
      → get_send_tox d ≡ ok lossless
      → Safe (send_to_tox env friend d)
  unfolding send_to_tox
  Safe-send_small friend d small named sends = Safe-this friend _ λ c w v h s.
      let e =
        send_to_tox_from-fits env d c.connected_friend (some friend) lossless w (omega arith) named
          sends in
      elim (Bool-cases (env.send_status w.clock c.connected_friend lossless d.bytes)) [
        | inl accepted ↦ rw (e, accepted) v
        | inr refused ↦ rw (e, refused) v
      ]

  -- A lossless packet of at most three bytes, as all of the negotiation are.
  pub Safe-send_or_reset :
      (friend : ℕ) (d : Data)
      → length d.bytes ≤ 3
      → d.tox_header_set ≡ true
      → get_send_tox d ≡ ok lossless
      → Safe (send_or_reset env friend d)
  unfolding send_or_reset
  Safe-send_or_reset friend d small named sends =
      Safe-try_catch (send_to_tox env friend d) _ (Safe-send_small friend d small named sends)
        (Safe-reset_and_delete friend)
