-- ===== src/Locality/Packets.antt =====
-- src/Connection.cpp, `handleData` and `iterate`.
use lib_tox_tun.Base.{ℕ, zero, suc, ◌+◌, ◌≡◌, List, length, ◌==◌, some, if◌then◌else◌}
use lib_tox_tun.Data.{
  Data, PacketId, connection_request, connection_accept, connection_reject, connection_close,
  connection_reset, ip_proposal, ip_accept, ip_reject, packet_data, fragment, unnamed,
  get_tox_header, is_valid_fragment, get_splitted_data_index, get_fragments_count,
}
use lib_tox_tun.Assembly.{from_fragments}
use lib_tox_tun.Assoc.{find, assign}
use lib_tox_tun.World.{World, Env, Connection, connected}
use lib_tox_tun.World.Exec.{Exec, pure, lift, attempt, tick, store, try_catch, ◌>>=◌}
use lib_tox_tun.Connection.{send_to_tox}
use lib_tox_tun.Handlers.{same_state}
use lib_tox_tun.Incoming.{
  Fragments, collect, take_out, the_set, handle_complete, handle_fragment, dispatch, handle_data_on,
  handle_data, waiting_at, next_frame, iterate_on, iterate,
}
use lib_tox_tun.Locality.{
  IsLocal, Preserves, continue-Preserves, bind-Preserves, try_catch-Preserves, this-Preserves,
  if-Preserves, either-Preserves,
}
use lib_tox_tun.Locality.Sending.{send_to_tox-Preserves}
use lib_tox_tun.Locality.Handling.{
  handle_connection_accepted-Preserves, handle_connection_rejected-Preserves,
  handle_connection_closed-Preserves, handle_connection_reset-Preserves,
  handle_ip_proposal-Preserves, handle_ip_accepted-Preserves, handle_ip_rejected-Preserves,
  send_to_tun-Preserves,
}

module _ (env : Env) (friend : ℕ) (P : World → Type 0)
    (refill : (c : Connection) (m : Fragments) (w : World)
      → P w
      → find friend w.connections ≡ some c
      → P (record w { connections = assign friend (record c { fragments = m }) w.connections }))
    (again : Data → Exec (Unit {0})) (keeps : (d : Data) → Preserves P (again d)) where
  handle_complete-Preserves :
      (index : ℕ) (l : List Data) → Preserves P (handle_complete env again friend index l)
  unfolding handle_complete store
  handle_complete-Preserves index l = this-Preserves P friend _ λ c w h there.
      let taken = refill c (take_out index c.fragments) w h there in
      continue-Preserves P (from_fragments l) _ _ taken (λ whole e.
        bind-Preserves P (again whole) _ (keeps whole)
          (λ done. this-Preserves P friend _ (λ c u g there. g)) _ taken)

  -- The rest of `handleFragment` once the fragment is in its set.
  abbrev collected : ℕ → Data → Fragments → Exec (Unit {0})
  collected index d m = do
    l ← lift (the_set (find index m))
    count ← lift (get_fragments_count d)
    if length l == count then handle_complete env again friend index l else pure tt

  collected-Preserves : (index : ℕ) (d : Data) (m : Fragments) → Preserves P (collected index d m)
  collected-Preserves index d m =
      bind-Preserves P (lift (the_set (find index m))) _ (λ v k. k)
        (λ l.
          bind-Preserves P (lift (get_fragments_count d)) _ (λ v k. k)
            (λ count.
              if-Preserves P (length l == count) (handle_complete env again friend index l)
                (pure tt) (handle_complete-Preserves index l) (λ v k. k)))

  pub handle_fragment-Preserves : (d : Data) → Preserves P (handle_fragment env again friend d)
  unfolding handle_fragment store
  handle_fragment-Preserves d w h =
      bind-Preserves P (lift (is_valid_fragment d)) _ (λ u g. g)
        (λ valid.
          if-Preserves P valid _ (pure tt)
            (bind-Preserves P (lift (get_splitted_data_index d)) _ (λ u g. g)
              (λ index. this-Preserves P friend _ (λ c u g there.
                collected-Preserves index d (collect index d c.fragments) _
                  (refill c (collect index d c.fragments) u g there))))
            (λ u g. g))
        w h

module _ (env : Env) (friend : ℕ) (P : World → Type 0) (local : IsLocal friend P) where
  module _ (again : Data → Exec (Unit {0})) (keeps : (d : Data) → Preserves P (again d)) where
    pub dispatch-Preserves :
        (id : PacketId) (d : Data) → Preserves P (dispatch env again id friend d)
    unfolding dispatch
    dispatch-Preserves connection_request d w h = h
    dispatch-Preserves connection_accept d w h =
        handle_connection_accepted-Preserves env friend P local w h
    dispatch-Preserves connection_reject d w h =
        handle_connection_rejected-Preserves env friend P local w h
    dispatch-Preserves connection_close d w h =
        handle_connection_closed-Preserves env friend P local w h
    dispatch-Preserves connection_reset d w h =
        handle_connection_reset-Preserves env friend P local w h
    dispatch-Preserves ip_proposal d w h = handle_ip_proposal-Preserves env friend P local d w h
    dispatch-Preserves ip_accept d w h = handle_ip_accepted-Preserves env friend P local w h
    dispatch-Preserves ip_reject d w h = handle_ip_rejected-Preserves env friend P local w h
    dispatch-Preserves packet_data d w h = send_to_tun-Preserves env friend P local d w h
    dispatch-Preserves fragment d w h =
        handle_fragment-Preserves env friend P
          (λ c m u g there.
            local.after_assign (record c { fragments = m }) u g (local.own_key c u g there))
          again keeps d w h
    dispatch-Preserves (unnamed b) d w h = h

  handle_data_on-Preserves : (fuel : ℕ) (d : Data) → Preserves P (handle_data_on env fuel friend d)
  unfolding handle_data_on
  handle_data_on-Preserves zero d w h = h
  handle_data_on-Preserves (suc fuel) d w h =
      bind-Preserves P (lift (get_tox_header d)) _ (λ u g. g)
        (λ id.
          dispatch-Preserves (handle_data_on env fuel friend) (handle_data_on-Preserves fuel) id d)
        w h

  pub handle_data-Preserves : (d : Data) → Preserves P (handle_data env friend d)
  unfolding handle_data
  handle_data-Preserves d w h =
      handle_data_on-Preserves (suc (waiting_at (find friend w.connections) + length d.bytes)) d w h

  abbrev forward : Exec (Unit {0})
  forward = try_catch (next_frame env friend >>= λ d. send_to_tox env friend d) (pure tt)

  forward-Preserves : Preserves P forward
  unfolding next_frame
  forward-Preserves =
      try_catch-Preserves P (next_frame env friend >>= λ d. send_to_tox env friend d) (pure tt)
        (bind-Preserves P (next_frame env friend) _
          (this-Preserves P friend _ (λ c u g there. local.after_clock (u.clock + 1) u g))
          (send_to_tox-Preserves env friend P local))
        (λ u g. g)

  iterate_on-Preserves : (fuel time : ℕ) → Preserves P (iterate_on env fuel friend time)
  unfolding iterate_on
  iterate_on-Preserves zero time = λ w h. h
  iterate_on-Preserves (suc fuel) time = this-Preserves P friend _ λ c w h there.
      either-Preserves P (same_state c.state connected) _ (pure tt)
        (λ w1 h1.
          bind-Preserves P (attempt (env.data_pending w1.clock)) _ (λ w2 h2. h2)
            (λ pending.
              either-Preserves P pending _ (pure tt)
                (λ w3 h3.
                  either-Preserves P (env.elapsed_over w3.clock time) (pure tt) _ (λ w4 h4. h4)
                    (bind-Preserves P forward _ forward-Preserves
                      (λ done. iterate_on-Preserves fuel time))
                    (tick w3).1 (local.after_clock (w3.clock + 1) w3 h3))
                (λ w3 h3. h3))
            (tick w1).1 (local.after_clock (w1.clock + 1) w1 h1))
        (λ w1 h1. h1) w h

  pub iterate-Preserves : (fuel time : ℕ) → Preserves P (iterate env fuel friend time)
  unfolding iterate
  iterate-Preserves fuel time w h = iterate_on-Preserves fuel time w h
