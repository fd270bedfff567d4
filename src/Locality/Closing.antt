-- ===== src/Locality/Closing.antt =====
-- src/Connection.cpp, `resetConnection`, `deleteConnection`, `~Connection`.
use lib_tox_tun.Base.{ℕ, ◌≡◌, Option, none, some}
use lib_tox_tun.Data.{Data, connection_reject, connection_close}
use lib_tox_tun.Assoc.{find}
use lib_tox_tun.World.{
  World, Env, Connection, Event, connection_closed, State, own_request_pending,
  friends_request_pending, expecting_ip_packet, expecting_ip_confirmation, connected, deleting,
  callback_called, tun_closed,
}
use lib_tox_tun.World.Exec.{called, noexcept, store, callback, ◌>>◌}
use lib_tox_tun.Connection.{
  send_to_tox, reset_friend, say_goodbye, destroy, erase_connection, delete_connection,
  reset_connection, reset_and_delete_connection,
}
use lib_tox_tun.Handlers.{send_or_reset}
use lib_tox_tun.Locality.{IsLocal, Preserves, bind-Preserves, try_catch-Preserves, this-Preserves}
use lib_tox_tun.Locality.Sending.{send_id-Preserves, reset_friend-Preserves, send_to_tox-Preserves}

module _ (env : Env) (friend : ℕ) (P : World → Type 0) (local : IsLocal friend P) where
  called-Preserves : (o : Option ℕ) (event : Event) (f : ℕ) → Preserves P (called o event f)
  unfolding called
  called-Preserves none event f w h = h
  called-Preserves (some function) event f w h =
      local.after_act (callback_called function event f w.callback_user_data) w tt h

  pub callback-Preserves : (event : Event) (f : ℕ) → Preserves P (callback event f)
  unfolding callback
  callback-Preserves event f w h = called-Preserves w.callback_function event f w h

  reset_and_tell-Preserves :
      (f : ℕ) → Preserves P (noexcept (reset_friend env f >> callback connection_closed f))
  reset_and_tell-Preserves f w h =
      bind-Preserves P (reset_friend env f) _ (reset_friend-Preserves env friend P local f)
        (λ done. callback-Preserves connection_closed f) w h

  say_goodbye-Preserves : (state : State) (f : ℕ) → Preserves P (say_goodbye env state f)
  unfolding say_goodbye
  say_goodbye-Preserves friends_request_pending f w h =
      send_id-Preserves env friend P local connection_reject f w h
  say_goodbye-Preserves connected f w h =
      send_id-Preserves env friend P local connection_close f w h
  say_goodbye-Preserves own_request_pending f w h = reset_and_tell-Preserves f w h
  say_goodbye-Preserves expecting_ip_packet f w h = reset_and_tell-Preserves f w h
  say_goodbye-Preserves expecting_ip_confirmation f w h = reset_and_tell-Preserves f w h
  say_goodbye-Preserves deleting f w h = h

  pub destroy-Preserves : (o : Option Connection) → Preserves P (destroy env o)
  unfolding destroy
  destroy-Preserves none w h = h
  destroy-Preserves (some c) w h =
      bind-Preserves P (say_goodbye env c.state c.connected_friend) _
        (say_goodbye-Preserves c.state c.connected_friend)
        (λ done u g. local.after_act (tun_closed c.connected_friend) u tt g) w h

  pub erase_connection-Preserves : Preserves P (erase_connection env friend)
  unfolding erase_connection
  erase_connection-Preserves w h =
      destroy-Preserves (find friend w.connections) _ (local.after_erase w h)

  erase_own : (f : ℕ) → f ≡ friend → Preserves P (erase_connection env f)
  erase_own f own = rw own erase_connection-Preserves

  pub delete_connection-Preserves : Preserves P (delete_connection env friend)
  unfolding delete_connection store
  delete_connection-Preserves w h =
      this-Preserves P friend _
        (λ c u g there.
          let own = local.own_key c u g there in
          erase_own c.connected_friend own _
            (local.after_assign (record c { state = deleting }) u g own))
        w h

  reset_connection-Preserves : Preserves P (reset_connection env friend)
  unfolding reset_connection
  reset_connection-Preserves w h =
      this-Preserves P friend _
        (λ c u g there.
          bind-Preserves P (reset_friend env c.connected_friend) _
            (reset_friend-Preserves env friend P local c.connected_friend)
            (λ done. callback-Preserves connection_closed c.connected_friend) u g)
        w h

  pub reset_and_delete-Preserves : Preserves P (reset_and_delete_connection env friend)
  unfolding reset_and_delete_connection
  reset_and_delete-Preserves w h =
      bind-Preserves P (reset_connection env friend) _ reset_connection-Preserves
        (λ done. delete_connection-Preserves) w h

  pub send_or_reset-Preserves : (d : Data) → Preserves P (send_or_reset env friend d)
  unfolding send_or_reset
  send_or_reset-Preserves d =
      try_catch-Preserves P (send_to_tox env friend d) _
        (send_to_tox-Preserves env friend P local d) reset_and_delete-Preserves
