-- ===== src/Locality/Sending.antt =====
-- src/Connection.cpp, `sendToTox`: what is sent leaves the connections as they are, but for the
-- index of the next fragments.
use lib_tox_tun.Base.{ℕ, ◌+◌, ◌≡◌, refl, Bool, true, false, Option, none, some, List, [], ◌∷◌, leb}
use lib_tox_tun.Data.{
  Data, PacketId, connection_reset, SendTox, from_packet_id, get_send_tox, get_tox_data,
  get_tox_data_len,
}
use lib_tox_tun.World.{World, Env, packet_sent}
use lib_tox_tun.World.Exec.{pure, lift, tox_send, store}
use lib_tox_tun.Connection.{
  cannot_send, check, next_index, take_index, packets_of, send_packet, send_packets,
  send_to_tox_from, send_to_tox, send_id, reset_friend,
}
use lib_tox_tun.Locality.{
  IsLocal, Preserves, bind-Preserves, try_catch-Preserves, this-Preserves, if-Preserves,
}

module _ (env : Env) (friend : ℕ) (P : World → Type 0) (local : IsLocal friend P) where
  check-Preserves :
      (status : Bool) (mode : SendTox) (to : ℕ) → Preserves P (check status (cannot_send mode to))
  check-Preserves true mode to = λ w h. h
  check-Preserves false mode to = λ w h. h

  send_packet-Preserves : (to : ℕ) (d : Data) → Preserves P (send_packet env to d)
  unfolding send_packet tox_send
  send_packet-Preserves to d =
      bind-Preserves P (lift (get_send_tox d)) _ (λ w h. h)
        (λ mode.
          bind-Preserves P (lift (get_tox_data d)) _ (λ w h. h)
            (λ bytes.
              bind-Preserves P (tox_send env to mode bytes)
                (λ status. check status (cannot_send mode to))
                (λ w h.
                  local.after_act
                    (packet_sent to mode bytes (env.send_status w.clock to mode bytes)) _ tt
                    (local.after_clock (w.clock + 1) w h))
                (λ status. check-Preserves status mode to)))

  send_packets-Preserves : (to : ℕ) (ds : List Data) → Preserves P (send_packets env to ds)
  unfolding send_packets
  send_packets-Preserves to [] = λ w h. h
  send_packets-Preserves to (d ∷ ds) =
      bind-Preserves P (send_packet env to d) _ (send_packet-Preserves to d)
        (λ done. send_packets-Preserves to ds)

  -- The fragment index that is taken, if any, is that of the friend.
  abbrev OwnSlot : Option ℕ → Type 0
  OwnSlot none = Unit
  OwnSlot (some f) = f ≡ friend

  take_index-Preserves : (slot : Option ℕ) → OwnSlot slot → Preserves P (take_index slot)
  unfolding take_index store
  take_index-Preserves none own = λ w h. h
  take_index-Preserves (some f) own = rw own (
      this-Preserves P friend _ λ c w h there.
        local.after_assign (record c { next_fragment_index = next_index c.next_fragment_index }) w h
          (local.own_key c w h there))

  send_to_tox_from-Preserves :
      (d : Data) (to : ℕ) (slot : Option ℕ)
      → OwnSlot slot
      → Preserves P (send_to_tox_from env d to slot)
  unfolding send_to_tox_from packets_of
  send_to_tox_from-Preserves d to slot own =
      bind-Preserves P (packets_of env d slot) _
        (if-Preserves P (leb (get_tox_data_len d) env.max_packet) (pure (d ∷ [])) _ (λ w h. h)
          (bind-Preserves P (take_index slot) _ (take_index-Preserves slot own) (λ index w h. h)))
        (λ packets. send_packets-Preserves to packets)

  pub send_to_tox-Preserves : (d : Data) → Preserves P (send_to_tox env friend d)
  unfolding send_to_tox
  send_to_tox-Preserves d =
      this-Preserves P friend _
        λ c w h there. send_to_tox_from-Preserves d c.connected_friend (some friend) refl w h

  -- A packet of one byte, with no index.
  pub send_id-Preserves : (id : PacketId) (to : ℕ) → Preserves P (send_id env id to)
  unfolding send_id
  send_id-Preserves id to =
      bind-Preserves P (lift (from_packet_id id)) _ (λ w h. h)
        (λ d.
          try_catch-Preserves P (send_to_tox_from env d to none) (pure tt)
            (send_to_tox_from-Preserves d to none tt) (λ w h. h))

  pub send_bare-Preserves : (d : Data) (to : ℕ) → Preserves P (send_to_tox_from env d to none)
  send_bare-Preserves d to = send_to_tox_from-Preserves d to none tt

  pub reset_friend-Preserves : (to : ℕ) → Preserves P (reset_friend env to)
  unfolding reset_friend
  reset_friend-Preserves to w h = send_id-Preserves connection_reset to w h
