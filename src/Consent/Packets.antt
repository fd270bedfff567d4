-- ===== src/Consent/Packets.antt =====
-- src/Connection.cpp: the packets of a friend who was not accepted.
use lib_tox_tun.Base.{
  ℕ, zero, suc, ◌+◌, ◌<◌, ◌≡◌, refl, false, some, List, length, Option-cases, inl, inr,
}
use lib_tox_tun.Data.{
  Data, PacketId, connection_request, connection_accept, connection_reject, connection_close,
  connection_reset, ip_proposal, ip_accept, ip_reject, packet_data, fragment, unnamed,
  get_tox_header,
}
use lib_tox_tun.Assoc.{find, assign, erase-Keyed, assign-Keyed, find-erase_self}
use lib_tox_tun.Assoc.Every.{find-Every, erase-Every, assign-Every}
use lib_tox_tun.World.{
  World, Env, Connection, Event, connection_closed, State, own_request_pending,
  friends_request_pending, expecting_ip_packet, expecting_ip_confirmation, connected,
}
use lib_tox_tun.World.Exec.{Exec, pure, lift, this, callback, try_catch, ◌>>◌}
use lib_tox_tun.Closing.{reset_and_delete-ok, reset_and_delete-terminates, delete_connection-ok}
use lib_tox_tun.Connection.{
  reset_friend, erase_connection, delete_connection, reset_connection, reset_and_delete_connection,
}
use lib_tox_tun.Handlers.{
  same_state, expect, handle_connection_accepted, handle_connection_rejected,
  handle_connection_closed, handle_connection_reset, handle_ip_proposal, handle_ip_accepted,
  handle_ip_rejected, write_frame, send_to_tun,
}
use lib_tox_tun.Incoming.{dispatch, handle_data_on, handle_data, waiting_at, iterate_on, iterate}
use lib_tox_tun.Locality.{Preserves, continue-Preserves, bind-Preserves, this-Preserves}
use lib_tox_tun.Locality.Sending.{reset_friend-Preserves}
use lib_tox_tun.Locality.Closing.{callback-Preserves, destroy-Preserves}
use lib_tox_tun.Locality.Packets.{handle_fragment-Preserves}
use lib_tox_tun.Consent.{IsWaiting, Unasked, Unasked-bystander}

module _ (env : Env) (friend : ℕ) where
  -- The connection to the friend, if there is one, waits for the program.
  waits :
      (c : Connection) (w : World)
      → Unasked friend w
      → find friend w.connections ≡ some c
      → c.state ≡ friends_request_pending
  waits c w h there = (find-Every (IsWaiting friend) friend w.connections c h.1 there).1 refl

  pub tell-Unasked : (event : Event) (f : ℕ) → Preserves (Unasked friend) (callback event f)
  tell-Unasked = callback-Preserves env (friend + 1) (Unasked friend) (Unasked-bystander friend)

  pub reset_friend-Unasked : (f : ℕ) → Preserves (Unasked friend) (reset_friend env f)
  reset_friend-Unasked =
      reset_friend-Preserves env (friend + 1) (Unasked friend) (Unasked-bystander friend)

  pub erase-Unasked : Preserves (Unasked friend) (erase_connection env friend)
  unfolding erase_connection
  erase-Unasked w h =
      destroy-Preserves env (friend + 1) (Unasked friend) (Unasked-bystander friend)
        (find friend w.connections) _
        (
          erase-Keyed friend 0 w.connections h.0,
          erase-Every (IsWaiting friend) friend w.connections h.1,
          h.2,
        )

  delete-Unasked : Preserves (Unasked friend) (delete_connection env friend)
  delete-Unasked w h = elim (Option-cases (find friend w.connections)) [
    | inl absent ↦ unfold delete_connection in unfold this in rw absent h
    | inr (c, there) ↦
        let own = (find-Every (IsWaiting friend) friend w.connections c h.1 there).0 in
        rw (delete_connection-ok env friend c w there own) (
          erase-Keyed friend 0 w.connections h.0,
          erase-Every (IsWaiting friend) friend w.connections h.1,
          (tt, h.2),
        )
  ]

  reset-Unasked : Preserves (Unasked friend) (reset_and_delete_connection env friend)
  unfolding reset_and_delete_connection reset_connection
  reset-Unasked w h =
      bind-Preserves (Unasked friend) (reset_connection env friend) _
        (this-Preserves (Unasked friend) friend _ λ c u g there.
          bind-Preserves (Unasked friend) (reset_friend env c.connected_friend) _
            (reset_friend-Unasked c.connected_friend)
            (λ done. tell-Unasked connection_closed c.connected_friend) u g)
        (λ done. delete-Unasked) w h

  -- The handler's own part does not run.
  expect-Unasked :
      (state : State) (body : Exec (Unit {0}))
      → same_state friends_request_pending state ≡ false
      → Preserves (Unasked friend) (expect env state friend body)
  unfolding expect
  expect-Unasked state body other =
      this-Preserves (Unasked friend) friend _
        λ c w h there. rw (waits c w h there, other) (reset-Unasked w h)

  handle_connection_reset-Unasked : Preserves (Unasked friend) (handle_connection_reset env friend)
  unfolding handle_connection_reset
  handle_connection_reset-Unasked w h =
      this-Preserves (Unasked friend) friend _
        (λ c u g there.
          bind-Preserves (Unasked friend) (callback connection_closed c.connected_friend) _
            (tell-Unasked connection_closed c.connected_friend) (λ done. delete-Unasked) u g)
        w h

  iterate_on-Unasked :
      (fuel time : ℕ) → Preserves (Unasked friend) (iterate_on env fuel friend time)
  unfolding iterate_on
  iterate_on-Unasked zero time = λ w h. h
  iterate_on-Unasked (suc fuel) time =
      this-Preserves (Unasked friend) friend _ λ c w h there. rw (waits c w h there) h

  pub iterate-Unasked : (fuel time : ℕ) → Preserves (Unasked friend) (iterate env fuel friend time)
  unfolding iterate
  iterate-Unasked fuel time w h = iterate_on-Unasked fuel time w h

  module _ (room : 0 < env.max_packet) where
    -- The reset takes the connection away, so nothing is written.
    reset_and_write-Unasked :
        (d : Data) (c : Connection) (w : World)
        → Unasked friend w
        → find friend w.connections ≡ some c
        → Unasked friend
            ((reset_and_delete_connection env friend
                >> try_catch (write_frame env friend d) (pure tt))
              w).1
    unfolding write_frame this
    reset_and_write-Unasked d c w h there = elim (Option-cases w.callback_function) [
      | inl silent ↦
          let reset = reset_and_delete_connection env friend w in
          let ends = reset_and_delete-terminates env friend c w there silent room in
          continue-Preserves (Unasked friend) reset.0 _ reset.1 (reset-Unasked w h)
            (λ a e. absurd (cc))
      | inr (function, called) ↦
          let own = (find-Every (IsWaiting friend) friend w.connections c h.1 there).0 in
          rw (reset_and_delete-ok env friend c function w there own called room) (
            rw (find-erase_self friend 0 w.connections h.0) (
              erase-Keyed friend 0 w.connections h.0,
              erase-Every (IsWaiting friend) friend w.connections h.1,
              (tt, (tt, (tt, h.2))),
            ))
    ]

    send_to_tun-Unasked : (d : Data) → Preserves (Unasked friend) (send_to_tun env friend d)
    unfolding send_to_tun
    send_to_tun-Unasked d w h =
        this-Preserves (Unasked friend) friend _
          (λ c u g there. rw (waits c u g there) (reset_and_write-Unasked d c u g there)) w h

    refill :
        (c : Connection) (m : List (ℕ × List Data)) (w : World)
        → Unasked friend w
        → find friend w.connections ≡ some c
        → Unasked friend
            (record w { connections = assign friend (record c { fragments = m }) w.connections })
    refill c m w h there = (
      assign-Keyed friend 0 (record c { fragments = m }) w.connections h.0,
      assign-Every (IsWaiting friend) friend (record c { fragments = m }) w.connections
          (find-Every (IsWaiting friend) friend w.connections c h.1 there) h.1,
      h.2,
    )

    module _ (again : Data → Exec (Unit {0}))
        (keeps : (d : Data) → Preserves (Unasked friend) (again d)) where
      dispatch-Unasked :
          (id : PacketId) (d : Data) → Preserves (Unasked friend) (dispatch env again id friend d)
      unfolding dispatch handle_connection_accepted handle_connection_rejected
          handle_connection_closed handle_ip_proposal handle_ip_accepted handle_ip_rejected
      dispatch-Unasked connection_request d w h = h
      dispatch-Unasked connection_accept d w h = expect-Unasked own_request_pending _ refl w h
      dispatch-Unasked connection_reject d w h = expect-Unasked own_request_pending _ refl w h
      dispatch-Unasked connection_close d w h = expect-Unasked connected _ refl w h
      dispatch-Unasked connection_reset d w h = handle_connection_reset-Unasked w h
      dispatch-Unasked ip_proposal d w h = expect-Unasked expecting_ip_packet _ refl w h
      dispatch-Unasked ip_accept d w h = expect-Unasked expecting_ip_confirmation _ refl w h
      dispatch-Unasked ip_reject d w h = expect-Unasked expecting_ip_confirmation _ refl w h
      dispatch-Unasked packet_data d w h = send_to_tun-Unasked d w h
      dispatch-Unasked fragment d w h =
          handle_fragment-Preserves env friend (Unasked friend) refill again keeps d w h
      dispatch-Unasked (unnamed b) d w h = h

    handle_data_on-Unasked :
        (fuel : ℕ) (d : Data) → Preserves (Unasked friend) (handle_data_on env fuel friend d)
    unfolding handle_data_on
    handle_data_on-Unasked zero d w h = h
    handle_data_on-Unasked (suc fuel) d w h =
        bind-Preserves (Unasked friend) (lift (get_tox_header d)) _ (λ u g. g)
          (λ id.
            dispatch-Unasked (handle_data_on env fuel friend) (handle_data_on-Unasked fuel) id d)
          w h

    pub handle_data-Unasked : (d : Data) → Preserves (Unasked friend) (handle_data env friend d)
    unfolding handle_data
    handle_data-Unasked d w h =
        handle_data_on-Unasked (suc (waiting_at (find friend w.connections) + length d.bytes)) d w h
