-- ===== src/Locality/Handling.antt =====
-- src/Connection.cpp: the packets of a friend, and the frames that are sent to him.
use lib_tox_tun.Base.{ℕ, zero, suc, ◌+◌, ◌≡◌, refl, Bool, true, false, if◌then◌else◌}
use lib_tox_tun.Errors.{Result, ok, err, thrown, out_of_range, terminated, undefined, diverged}
use lib_tox_tun.Data.{
  Data, connection_accept, ip_accept, ip_reject, from_packet_id, from_ip_postfix, get_ip_data,
}
use lib_tox_tun.World.{
  World, Env, Connection, Event, State, own_request_pending, friends_request_pending,
  expecting_ip_packet, expecting_ip_confirmation, connected, connection_accepted,
  connection_rejected, connection_closed, ip_set, frame_written,
}
use lib_tox_tun.World.Exec.{
  Exec, pure, raise, lift, to_result, this, store, callback, try_catch, ◌>>=◌, ◌>>◌,
}
use lib_tox_tun.Connection.{delete_connection, reset_and_delete_connection}
use lib_tox_tun.Handlers.{
  same_state, incr, to_byte_of, is_256, expect, assume_unused, send_or_reset, set_ip, search_subnet,
  propose, send_ip, handle_connection_accepted, handle_connection_rejected,
  handle_connection_closed, handle_connection_reset, answer_proposal, with_proposal, proposal_of,
  handle_ip_proposal, handle_ip_accepted, handle_ip_rejected, write_frame, send_to_tun, accept,
}
use lib_tox_tun.Proposal.{assume_unused-asks}
use lib_tox_tun.Locality.{
  IsLocal, Preserves, continue-Preserves, bind-Preserves, try_catch-Preserves, this-Preserves,
  if-Preserves, either-Preserves,
}
use lib_tox_tun.Locality.Closing.{
  callback-Preserves, delete_connection-Preserves, reset_and_delete-Preserves,
  send_or_reset-Preserves,
}

module _ (env : Env) (friend : ℕ) (P : World → Type 0) (local : IsLocal friend P) where
  -- The connection with another value in a field, and then the rest.
  pub store-Preserves :
      (c : Connection) → c.connected_friend ≡ friend → Preserves P (store friend c)
  unfolding store
  store-Preserves c own w h = local.after_assign c w h own

  expect-Preserves :
      (state : State) (body : Exec (Unit {0}))
      → Preserves P body
      → Preserves P (expect env state friend body)
  unfolding expect
  expect-Preserves state body keeps = this-Preserves P friend _ λ c w h there.
      if-Preserves P (same_state c.state state) body _ keeps
        (reset_and_delete-Preserves env friend P local) w h

  assume_unused-Preserves : (subnet : ℕ) → Preserves P (assume_unused env subnet)
  assume_unused-Preserves subnet w h =
      rw (assume_unused-asks env subnet w) (local.after_clock (w.clock + 1) w h)

  search_subnet-Preserves : (fuel : ℕ) → Preserves P (search_subnet env fuel friend)
  unfolding search_subnet
  search_subnet-Preserves zero = λ w h. h
  search_subnet-Preserves (suc fuel) = this-Preserves P friend _ λ c w h there.
      bind-Preserves P (store friend (record c { subnet = incr c.subnet })) _
        (store-Preserves (record c { subnet = incr c.subnet }) (local.own_key c w h there))
        (λ done.
          bind-Preserves P (assume_unused env (to_byte_of (incr c.subnet))) _
            (assume_unused-Preserves (to_byte_of (incr c.subnet)))
            (λ unused.
              either-Preserves P (is_256 (incr c.subnet))
                (reset_and_delete_connection env friend >> pure false) _
                (bind-Preserves P (reset_and_delete_connection env friend) (λ done. pure false)
                  (reset_and_delete-Preserves env friend P local) (λ done u g. g))
                (either-Preserves P unused (pure true) _ (λ u g. g)
                  (search_subnet-Preserves fuel))))
        w h

  propose-Preserves : (found : Bool) → Preserves P (propose env friend found)
  propose-Preserves false = λ w h. h
  propose-Preserves true = this-Preserves P friend _ λ c w h there.
      bind-Preserves P (lift (from_ip_postfix (to_byte_of c.subnet) 2)) _ (λ u g. g)
        (λ d. send_or_reset-Preserves env friend P local d) w h

  send_ip-Preserves : Preserves P (send_ip env friend)
  unfolding send_ip
  send_ip-Preserves w h =
      bind-Preserves P (search_subnet env 257 friend) _ (search_subnet-Preserves 257)
        propose-Preserves w h

  set_ip-Preserves : (subnet postfix : ℕ) → Preserves P (set_ip env friend subnet postfix)
  unfolding set_ip
  set_ip-Preserves subnet postfix w h =
      this-Preserves P friend _
        (λ c u g there.
          bind-Preserves P (store friend (record c { state = connected })) _
            (store-Preserves (record c { state = connected }) (local.own_key c u g there))
            (λ done. callback-Preserves env friend P local connection_accepted c.connected_friend) _
            (local.after_act (ip_set friend subnet postfix) u refl g))
        w h

  pub handle_connection_accepted-Preserves : Preserves P (handle_connection_accepted env friend)
  unfolding handle_connection_accepted
  handle_connection_accepted-Preserves w h =
      expect-Preserves own_request_pending _
        (this-Preserves P friend _ λ c u g there.
          bind-Preserves P (store friend (record c { state = expecting_ip_confirmation })) _
            (store-Preserves (record c { state = expecting_ip_confirmation })
              (local.own_key c u g there))
            (λ done. send_ip-Preserves) u g)
        w h

  tell_and_delete-Preserves :
      (event : Event)
      → Preserves P
          (this friend >>= λ c. callback event c.connected_friend >> delete_connection env friend)
  tell_and_delete-Preserves event = this-Preserves P friend _ λ c w h there.
      bind-Preserves P (callback event c.connected_friend) _
        (callback-Preserves env friend P local event c.connected_friend)
        (λ done. delete_connection-Preserves env friend P local) w h

  pub handle_connection_rejected-Preserves : Preserves P (handle_connection_rejected env friend)
  unfolding handle_connection_rejected
  handle_connection_rejected-Preserves w h =
      expect-Preserves own_request_pending _ (tell_and_delete-Preserves connection_rejected) w h

  pub handle_connection_closed-Preserves : Preserves P (handle_connection_closed env friend)
  unfolding handle_connection_closed
  handle_connection_closed-Preserves w h =
      expect-Preserves connected _ (tell_and_delete-Preserves connection_closed) w h

  pub handle_connection_reset-Preserves : Preserves P (handle_connection_reset env friend)
  unfolding handle_connection_reset
  handle_connection_reset-Preserves w h = tell_and_delete-Preserves connection_closed w h

  answer_proposal-Preserves :
      (postfix subnet : ℕ) → Preserves P (answer_proposal env friend postfix subnet)
  unfolding answer_proposal
  answer_proposal-Preserves postfix subnet =
      bind-Preserves P (assume_unused env subnet) _ (assume_unused-Preserves subnet) (λ unused.
        if-Preserves P unused _ _
          (bind-Preserves P (lift (from_packet_id ip_accept)) _ (λ w h. h)
            (λ d.
              bind-Preserves P (send_or_reset env friend d) _
                (send_or_reset-Preserves env friend P local d)
                (λ done. set_ip-Preserves subnet postfix)))
          (bind-Preserves P (lift (from_packet_id ip_reject)) _ (λ w h. h)
            (send_or_reset-Preserves env friend P local)))

  with_proposal-Preserves :
      (r : Result (ℕ × ℕ)) (k : ℕ → ℕ → Exec (Unit {0}))
      → ((postfix subnet : ℕ) → Preserves P (k postfix subnet))
      → Preserves P (with_proposal env r k)
  with_proposal-Preserves (ok (postfix, subnet)) k s = s postfix subnet
  with_proposal-Preserves (err (thrown e)) k s = λ w h. h
  with_proposal-Preserves (err out_of_range) k s = λ w h. h
  with_proposal-Preserves (err terminated) k s = λ w h. h
  with_proposal-Preserves (err undefined) k s = λ w h. h
  with_proposal-Preserves (err diverged) k s = λ w h. h

  pub handle_ip_proposal-Preserves : (d : Data) → Preserves P (handle_ip_proposal env friend d)
  unfolding handle_ip_proposal
  handle_ip_proposal-Preserves d w h =
      expect-Preserves expecting_ip_packet _
        (with_proposal-Preserves (proposal_of env d) _ answer_proposal-Preserves) w h

  pub handle_ip_accepted-Preserves : Preserves P (handle_ip_accepted env friend)
  unfolding handle_ip_accepted
  handle_ip_accepted-Preserves w h =
      expect-Preserves expecting_ip_confirmation _
        (this-Preserves P friend _ λ c u g there. set_ip-Preserves (to_byte_of c.subnet) 1 u g) w h

  pub handle_ip_rejected-Preserves : Preserves P (handle_ip_rejected env friend)
  unfolding handle_ip_rejected
  handle_ip_rejected-Preserves w h =
      expect-Preserves expecting_ip_confirmation _ send_ip-Preserves w h

  write_frame-Preserves : (d : Data) → Preserves P (write_frame env friend d)
  unfolding write_frame
  write_frame-Preserves d = this-Preserves P friend _ λ c w h there.
      bind-Preserves P (lift (get_ip_data d)) _ (λ u g. g)
        (λ frame u g.
          let later = local.after_clock (u.clock + 1) u g in
          continue-Preserves P (to_result (env.write_tun u.clock frame)) _ _ later
            (λ done e. local.after_act (frame_written friend frame) _ refl later))
        w h

  pub send_to_tun-Preserves : (d : Data) → Preserves P (send_to_tun env friend d)
  unfolding send_to_tun
  send_to_tun-Preserves d w h =
      this-Preserves P friend _
        (λ c u g there.
          bind-Preserves P
            (if same_state c.state connected
              then pure tt
              else reset_and_delete_connection env friend)
            (λ done. try_catch (write_frame env friend d) (pure tt))
            (if-Preserves P (same_state c.state connected) (pure tt)
              (reset_and_delete_connection env friend) (λ v k. k)
              (reset_and_delete-Preserves env friend P local))
            (λ done.
              try_catch-Preserves P (write_frame env friend d) (pure tt) (write_frame-Preserves d)
                (λ v k. k))
            u g)
        w h

  pub accept-Preserves : Preserves P (accept env friend)
  unfolding accept
  accept-Preserves = this-Preserves P friend _ λ c w h there.
      if-Preserves P (same_state c.state friends_request_pending) _ (raise _)
        (bind-Preserves P (store friend (record c { state = expecting_ip_packet })) _
          (store-Preserves (record c { state = expecting_ip_packet }) (local.own_key c w h there))
          (λ done.
            bind-Preserves P (lift (from_packet_id connection_accept)) _ (λ u g. g)
              (send_or_reset-Preserves env friend P local)))
        (λ u g. g) w h
