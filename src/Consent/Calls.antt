-- ===== src/Consent/Calls.antt =====
-- src/ToxTunCore.cpp: the calls for a friend who was not accepted, but those that ask or accept.
use mathlib.Core.Path.{subst}
use lib_tox_tun.Base.{
  ℕ, ◌+◌, ◌<◌, ◌≡◌, refl, Bool, true, false, List, [], ◌∷◌, map, length, arith, inl, inr, ◌==◌,
  Bool-cases, if◌then◌else◌, ◌/◌,
}
use lib_tox_tun.Errors.{Result, ok}
use lib_tox_tun.Data.{
  Data, PacketId, connection_request, connection_accept, connection_reject, connection_close,
  connection_reset, ip_proposal, ip_accept, ip_reject, packet_data, fragment, unnamed,
  from_tox_data, get_tox_header,
}
use lib_tox_tun.Assoc.{emplace-Keyed}
use lib_tox_tun.Assoc.Every.{emplace-Every}
use lib_tox_tun.World.{World, Env, Connection, connection_requested}
use lib_tox_tun.World.Exec.{Exec, pure, lift, callback, try_catch, to_result, noexcept, ◌>>=◌, ◌>>◌}
use lib_tox_tun.Connection.{fresh, construct, reset_friend, erase_connection}
use lib_tox_tun.Incoming.{handle_data, iterate}
use lib_tox_tun.Core.{
  is_some, has, emplace_connection, handle_connection_request, greet, handle_packet,
  tox_packet_callback, reject_connection, close_connection, iterate_each, iterate_all,
}
use lib_tox_tun.Locality.{
  Preserves, continue-Preserves, bind-Preserves, try_catch-Preserves, if-Preserves,
}
use lib_tox_tun.Locality.Packets.{iterate-Preserves}
use lib_tox_tun.Invariant.Calls.{continue-ok}
use lib_tox_tun.Consent.{IsWaiting, Unasked, Unasked-IsLocal}
use lib_tox_tun.Consent.Packets.{
  tell-Unasked, reset_friend-Unasked, erase-Unasked, iterate-Unasked, handle_data-Unasked,
}

module _ (env : Env) (friend : ℕ) where
  -- A connection that the friend asked for waits for the program.
  ringing_new :
      (c : Connection) (w : World)
      → (construct env friend false w).0 ≡ ok c
      → IsWaiting friend friend c
  unfolding construct
  ringing_new c w h =
      let (opened, h1, h2) = continue-ok (to_result (env.open_tun (w.clock + 1))) _ _ c h in
      let it : fresh env friend false (env.self_udp_port w.clock) ≡ c = cc (h2) in
      subst (IsWaiting friend friend) it (refl, λ e. refl)

  construct-Unasked : Preserves (Unasked friend) (construct env friend false)
  unfolding construct
  construct-Unasked w h =
      continue-Preserves (Unasked friend) (to_result (env.open_tun (w.clock + 1))) _
        (record w { clock = w.clock + 1 + 1 }) h (λ opened e. (h.0, h.1, (tt, h.2)))

  emplace_connection-Unasked : Preserves (Unasked friend) (emplace_connection env friend false)
  unfolding emplace_connection
  emplace_connection-Unasked w h =
      let built = construct env friend false w in
      let kept = construct-Unasked w h in
      continue-Preserves (Unasked friend) built.0 _ built.1 kept (λ c e. (
        emplace-Keyed friend 0 c built.1.connections (omega arith) kept.0,
        emplace-Every (IsWaiting friend) friend c built.1.connections (ringing_new c w e) kept.1,
        kept.2,
      ))

  -- The connection is added, or taken away again and the friend reset.
  abbrev added_or_reset : Exec Bool
  added_or_reset =
      try_catch (emplace_connection env friend false >> pure true)
        (erase_connection env friend >> (reset_friend env friend >> pure false))

  added_or_reset-Unasked : Preserves (Unasked friend) added_or_reset
  added_or_reset-Unasked =
      try_catch-Preserves (Unasked friend) (emplace_connection env friend false >> pure true)
        (erase_connection env friend >> (reset_friend env friend >> pure false))
        (bind-Preserves (Unasked friend) (emplace_connection env friend false) (λ done. pure true)
          emplace_connection-Unasked (λ done u g. g))
        (bind-Preserves (Unasked friend) (erase_connection env friend)
          (λ done. reset_friend env friend >> pure false) (erase-Unasked env friend)
          (λ done.
            bind-Preserves (Unasked friend) (reset_friend env friend) (λ done. pure false)
              (reset_friend-Unasked env friend friend) (λ done u g. g)))

  abbrev tell : Bool → Exec (Unit {0})
  tell added = if added then callback connection_requested friend else pure tt

  handle_connection_request-Unasked :
      Preserves (Unasked friend) (handle_connection_request env friend)
  unfolding handle_connection_request
  handle_connection_request-Unasked w h =
      if-Preserves (Unasked friend) (is_some w.callback_function) (added_or_reset >>= tell)
        (pure tt)
        (bind-Preserves (Unasked friend) added_or_reset tell added_or_reset-Unasked (λ added.
          if-Preserves (Unasked friend) added (callback connection_requested friend) (pure tt)
            (tell-Unasked env friend connection_requested friend) (λ u g. g)))
        (λ u g. g) w h

  greet-Unasked : (id : PacketId) → Preserves (Unasked friend) (greet env id friend)
  unfolding greet
  greet-Unasked connection_request = handle_connection_request-Unasked
  greet-Unasked connection_reset = λ w h. h
  greet-Unasked connection_accept = reset_friend-Unasked env friend friend
  greet-Unasked connection_reject = reset_friend-Unasked env friend friend
  greet-Unasked connection_close = reset_friend-Unasked env friend friend
  greet-Unasked ip_proposal = reset_friend-Unasked env friend friend
  greet-Unasked ip_accept = reset_friend-Unasked env friend friend
  greet-Unasked ip_reject = reset_friend-Unasked env friend friend
  greet-Unasked packet_data = reset_friend-Unasked env friend friend
  greet-Unasked fragment = reset_friend-Unasked env friend friend
  greet-Unasked (unnamed b) = reset_friend-Unasked env friend friend

  handle_packet-Unasked :
      (d : Data) → 0 < env.max_packet → Preserves (Unasked friend) (handle_packet env d friend)
  unfolding handle_packet
  handle_packet-Unasked d room w h =
      if-Preserves (Unasked friend) (has friend w) (handle_data env friend d)
        (lift (get_tox_header d) >>= λ id. greet env id friend)
        (handle_data-Unasked env friend room d)
        (bind-Preserves (Unasked friend) (lift (get_tox_header d)) (λ id. greet env id friend)
          (λ v k. k) greet-Unasked)
        w h

  pub tox_packet_callback-Unasked :
      (bytes : List ℕ)
      → 0 < env.max_packet
      → Preserves (Unasked friend) (tox_packet_callback env friend bytes)
  unfolding tox_packet_callback
  tox_packet_callback-Unasked bytes room w h =
      bind-Preserves (Unasked friend) (lift (from_tox_data bytes)) (λ d. handle_packet env d friend)
        (λ u g. g) (λ d. handle_packet-Unasked d room) w h

  pub reject_connection-Unasked : Preserves (Unasked friend) (reject_connection env friend)
  unfolding reject_connection
  reject_connection-Unasked w h = erase-Unasked env friend w h

  pub close_connection-Unasked : Preserves (Unasked friend) (close_connection env friend)
  unfolding close_connection
  close_connection-Unasked w h = erase-Unasked env friend w h

  iterate_any-Unasked : (fuel f time : ℕ) → Preserves (Unasked friend) (iterate env fuel f time)
  iterate_any-Unasked fuel f time = elim (Bool-cases (f == friend)) [
    | inl same ↦
        let own : friend ≡ f = ground arith in
        subst (λ g. Preserves (Unasked friend) (iterate env fuel g time)) own
          (iterate-Unasked env friend fuel time)
    | inr other ↦
        iterate-Preserves env f (Unasked friend) (Unasked-IsLocal friend f (ground arith)) fuel time
  ]

  iterate_each-Unasked :
      (fuel time : ℕ) (friends : List ℕ)
      → Preserves (Unasked friend) (iterate_each env fuel time friends)
  unfolding iterate_each
  iterate_each-Unasked fuel time [] = λ w h. h
  iterate_each-Unasked fuel time (f ∷ friends) =
      bind-Preserves (Unasked friend) (iterate env fuel f time) _ (iterate_any-Unasked fuel f time)
        (λ done. iterate_each-Unasked fuel time friends)

  pub iterate_all-Unasked : (fuel : ℕ) → Preserves (Unasked friend) (iterate_all env fuel)
  unfolding iterate_all
  iterate_all-Unasked fuel w h = over w.connections
    where
      over :
          (l : List (ℕ × Connection))
          → let done : Result (Unit {0}) × World = elim l [
            | [] ↦ (ok tt, w)
            | entry ∷ rest ↦
                noexcept
                  (iterate_each env fuel
                    (500 / length (entry ∷ rest))
                    (map (λ e. e.0) (entry ∷ rest)))
                  w
          ] in
            Unasked friend done.1
      over [] = h
      over (entry ∷ rest) =
          iterate_each-Unasked fuel (500 / length (entry ∷ rest)) (map (λ e. e.0) (entry ∷ rest)) w
            h
