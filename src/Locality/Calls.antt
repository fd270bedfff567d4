-- ===== src/Locality/Calls.antt =====
-- src/ToxTunCore.cpp: the operations that a program calls for one friend, and his packets.
use lib_tox_tun.Base.{ℕ, ◌+◌, Bool, true, false, List, if◌then◌else◌}
use lib_tox_tun.Errors.{
  Result, ok, err, thrown, out_of_range, terminated, undefined, diverged, error,
}
use lib_tox_tun.Data.{
  Data, PacketId, connection_request, connection_accept, connection_reject, connection_close,
  connection_reset, ip_proposal, ip_accept, ip_reject, packet_data, fragment, unnamed,
  from_tox_data, get_tox_header, from_packet_id,
}
use lib_tox_tun.World.{World, Env, connection_requested, tun_opened, tun_closed}
use lib_tox_tun.World.Exec.{Exec, pure, raise, lift, callback, to_result, try_catch, ◌>>=◌, ◌>>◌}
use lib_tox_tun.Connection.{
  send_connection_request, or_close_tun, request, construct, reset_friend, erase_connection,
}
use lib_tox_tun.Handlers.{accept}
use lib_tox_tun.Incoming.{handle_data}
use lib_tox_tun.Core.{
  is_some, has, emplace_connection, handle_connection_request, greet, handle_packet,
  tox_packet_callback, send_request, or_erase, accept_connection, reject_connection,
  close_connection,
}
use lib_tox_tun.Locality.{
  IsLocal, Preserves, continue-Preserves, bind-Preserves, try_catch-Preserves, if-Preserves,
}
use lib_tox_tun.Locality.Sending.{send_bare-Preserves, reset_friend-Preserves}
use lib_tox_tun.Locality.Closing.{callback-Preserves, erase_connection-Preserves}
use lib_tox_tun.Locality.Handling.{accept-Preserves}
use lib_tox_tun.Locality.Packets.{handle_data-Preserves}
use lib_tox_tun.Invariant.Calls.{construct-IsSound}

module _ (env : Env) (friend : ℕ) (P : World → Type 0) (local : IsLocal friend P) where
  or_close_tun-Preserves :
      (r : Result (Unit {0})) (w : World) → P w → P (or_close_tun env friend r w).1
  or_close_tun-Preserves (ok a) w h = h
  or_close_tun-Preserves (err e) w h = local.after_act (tun_closed friend) w tt h

  request-Preserves : (initiate : Bool) → Preserves P (request env initiate friend)
  unfolding send_connection_request
  request-Preserves false w h = h
  request-Preserves true w h =
      or_close_tun-Preserves (send_connection_request env friend w).0
        (send_connection_request env friend w).1
        (bind-Preserves P (lift (from_packet_id connection_request)) _ (λ u g. g)
          (λ d. send_bare-Preserves env friend P local d friend) w h)

  construct-Preserves : (initiate : Bool) → Preserves P (construct env friend initiate)
  unfolding construct
  construct-Preserves initiate w h =
      let later =
        local.after_clock (w.clock + 1 + 1) (record w { clock = w.clock + 1 })
          (local.after_clock (w.clock + 1) w h) in
      continue-Preserves P (to_result (env.open_tun (w.clock + 1))) _ _ later (λ opened e.
        bind-Preserves P (request env initiate friend) _ (request-Preserves initiate)
          (λ done u g. g) _ (local.after_act (tun_opened friend) _ tt later))

  emplace_connection-Preserves :
      (initiate : Bool) → Preserves P (emplace_connection env friend initiate)
  unfolding emplace_connection
  emplace_connection-Preserves initiate w h =
      let built = construct env friend initiate w in
      let kept = construct-Preserves initiate w h in
      continue-Preserves P built.0 _ built.1 kept (λ c e.
        local.after_emplace c built.1 kept (construct-IsSound env friend initiate c w e).own_key)

  -- The connection is added, or taken away again and the friend reset.
  abbrev added_or_reset : Exec Bool
  added_or_reset =
      try_catch (emplace_connection env friend false >> pure true)
        (erase_connection env friend >> (reset_friend env friend >> pure false))

  added_or_reset-Preserves : Preserves P added_or_reset
  added_or_reset-Preserves =
      try_catch-Preserves P (emplace_connection env friend false >> pure true)
        (erase_connection env friend >> (reset_friend env friend >> pure false))
        (bind-Preserves P (emplace_connection env friend false) (λ done. pure true)
          (emplace_connection-Preserves false) (λ done u g. g))
        (bind-Preserves P (erase_connection env friend)
          (λ done. reset_friend env friend >> pure false)
          (erase_connection-Preserves env friend P local)
          (λ done.
            bind-Preserves P (reset_friend env friend) (λ done. pure false)
              (reset_friend-Preserves env friend P local friend) (λ done u g. g)))

  abbrev tell : Bool → Exec (Unit {0})
  tell added = if added then callback connection_requested friend else pure tt

  tell-Preserves : (added : Bool) → Preserves P (tell added)
  tell-Preserves added =
      if-Preserves P added (callback connection_requested friend) (pure tt)
        (callback-Preserves env friend P local connection_requested friend) (λ u g. g)

  handle_connection_request-Preserves : Preserves P (handle_connection_request env friend)
  unfolding handle_connection_request
  handle_connection_request-Preserves w h =
      if-Preserves P (is_some w.callback_function) (added_or_reset >>= tell) (pure tt)
        (bind-Preserves P added_or_reset tell added_or_reset-Preserves tell-Preserves) (λ u g. g) w
        h

  greet-Preserves : (id : PacketId) → Preserves P (greet env id friend)
  unfolding greet
  greet-Preserves connection_request = handle_connection_request-Preserves
  greet-Preserves connection_reset = λ w h. h
  greet-Preserves connection_accept = reset_friend-Preserves env friend P local friend
  greet-Preserves connection_reject = reset_friend-Preserves env friend P local friend
  greet-Preserves connection_close = reset_friend-Preserves env friend P local friend
  greet-Preserves ip_proposal = reset_friend-Preserves env friend P local friend
  greet-Preserves ip_accept = reset_friend-Preserves env friend P local friend
  greet-Preserves ip_reject = reset_friend-Preserves env friend P local friend
  greet-Preserves packet_data = reset_friend-Preserves env friend P local friend
  greet-Preserves fragment = reset_friend-Preserves env friend P local friend
  greet-Preserves (unnamed b) = reset_friend-Preserves env friend P local friend

  handle_packet-Preserves : (d : Data) → Preserves P (handle_packet env d friend)
  unfolding handle_packet
  handle_packet-Preserves d w h =
      if-Preserves P (has friend w) (handle_data env friend d)
        (lift (get_tox_header d) >>= λ id. greet env id friend)
        (handle_data-Preserves env friend P local d)
        (bind-Preserves P (lift (get_tox_header d)) (λ id. greet env id friend) (λ v k. k)
          greet-Preserves)
        w h

  pub tox_packet_callback-Preserves :
      (bytes : List ℕ) → Preserves P (tox_packet_callback env friend bytes)
  unfolding tox_packet_callback
  tox_packet_callback-Preserves bytes w h =
      bind-Preserves P (lift (from_tox_data bytes)) (λ d. handle_packet env d friend) (λ u g. g)
        handle_packet-Preserves w h

  pub send_request-Preserves : Preserves P (send_request env friend)
  unfolding send_request
  send_request-Preserves w h =
      if-Preserves P (has friend w)
        (raise (error "You have allready an open connection to this friend"))
        (emplace_connection env friend true) (λ u g. g) (emplace_connection-Preserves true) w h

  or_erase-Preserves : (r : Result (Unit {0})) (w : World) → P w → P (or_erase env friend r w).1
  or_erase-Preserves (ok a) w h = h
  or_erase-Preserves (err (thrown e)) w h =
      bind-Preserves P (erase_connection env friend) (λ done. raise (thrown e))
        (erase_connection-Preserves env friend P local) (λ done u g. g) w h
  or_erase-Preserves (err out_of_range) w h = h
  or_erase-Preserves (err terminated) w h = h
  or_erase-Preserves (err undefined) w h = h
  or_erase-Preserves (err diverged) w h = h

  pub accept_connection-Preserves : Preserves P (accept_connection env friend)
  unfolding accept_connection
  accept_connection-Preserves w h =
      if-Preserves P (has friend w)
        (λ u. or_erase env friend (accept env friend u).0 (accept env friend u).1)
        (raise (error "No connection to accept from this friend"))
        (λ u g.
          or_erase-Preserves (accept env friend u).0 (accept env friend u).1
            (accept-Preserves env friend P local u g))
        (λ u g. g) w h

  pub reject_connection-Preserves : Preserves P (reject_connection env friend)
  unfolding reject_connection
  reject_connection-Preserves w h = erase_connection-Preserves env friend P local w h

  pub close_connection-Preserves : Preserves P (close_connection env friend)
  unfolding close_connection
  close_connection-Preserves w h = erase_connection-Preserves env friend P local w h
