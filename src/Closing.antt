-- ===== src/Closing.antt =====
-- How a connection ends: what is sent, who is told, and what stays (src/Connection.cpp,
-- `resetConnection`, `deleteConnection`, `~Connection`).
use lib_tox_tun.Base.{
  ℕ, ◌+◌, ◌≤◌, ◌<◌, ◌≡◌, refl, Bool, true, Option, none, some, List, [], ◌∷◌, length, arith, leb,
  if◌then◌else◌, Bool-cases, inl, inr,
}
use lib_tox_tun.Errors.{Result, ok, err, terminated}
use lib_tox_tun.Data.{
  Data, PacketId, connection_reset, SendTox, lossless, to_byte, from_packet_id, get_send_tox,
  get_tox_data, get_tox_data_len,
}
use lib_tox_tun.Assoc.{find, erase, erase-assign, find-assign_self}
use lib_tox_tun.World.{
  World, Env, Connection, Event, connection_closed, packet_sent, callback_called, tun_closed,
  deleting,
}
use lib_tox_tun.World.Exec.{tox_send, this, store, callback}
use lib_tox_tun.Connection.{
  cannot_send, packets_of, send_packet, send_packets, send_to_tox_from, send_id, reset_friend,
  say_goodbye, destroy, erase_connection, delete_connection, reset_connection,
  reset_and_delete_connection,
}

-- A packet of one byte.
abbrev pub bare : PacketId → Data
bare id = record { bytes = to_byte id ∷ []; tox_header_set = true }

pub from_packet_id-bare : (id : PacketId) → from_packet_id id ≡ ok (bare id)
unfolding from_packet_id
from_packet_id-bare id = refl

module _ (env : Env) where
  -- tox was asked to send, and answered as the environment says.
  abbrev pub after_send : ℕ → SendTox → List ℕ → World → World
  after_send friend mode bytes w = record w {
    clock = w.clock + 1;
    actions = packet_sent friend mode bytes (env.send_status w.clock friend mode bytes) ∷ w.actions;
  }

  -- What the caller sees of the answer of tox.
  abbrev pub sent_or : Bool → SendTox → ℕ → Result (Unit {0})
  sent_or status mode friend = if status then ok tt else err (cannot_send mode friend)

  -- A packet that fits is handed to tox as it is, once.
  pub send_to_tox_from-fits :
      (d : Data) (friend : ℕ) (slot : Option ℕ) (mode : SendTox) (w : World)
      → length d.bytes ≤ env.max_packet
      → d.tox_header_set ≡ true
      → get_send_tox d ≡ ok mode
      → send_to_tox_from env d friend slot w ≡ (
        sent_or (env.send_status w.clock friend mode d.bytes) mode friend,
        after_send friend mode d.bytes w,
      )
  unfolding send_to_tox_from packets_of send_packets send_packet tox_send get_tox_data
      get_tox_data_len
  send_to_tox_from-fits d friend slot mode w fits named sends =
      let small : leb (length d.bytes) env.max_packet ≡ true = ground arith in
      elim (Bool-cases (env.send_status w.clock friend mode d.bytes)) [
        | inl accepted ↦ rw (small, send_to_tox_from, sends, named, accepted)
        | inr refused ↦ rw (small, send_to_tox_from, sends, named, refused)
      ]

  -- Whether tox took the packet or not, the try block around a packet of one byte goes on.
  pub send_id-lossless :
      (id : PacketId) (friend : ℕ) (w : World)
      → 0 < env.max_packet
      → get_send_tox (bare id) ≡ ok lossless
      → send_id env id friend w ≡ (ok tt, after_send friend lossless (to_byte id ∷ []) w)
  unfolding send_id
  send_id-lossless id friend w room sends =
      let e = send_to_tox_from-fits (bare id) friend none lossless w (omega arith) refl sends in
      elim (Bool-cases (env.send_status w.clock friend lossless (to_byte id ∷ []))) [
        | inl accepted ↦ rw (from_packet_id-bare id, e, accepted)
        | inr refused ↦ rw (from_packet_id-bare id, e, refused)
      ]

  pub reset_friend-sends :
      (friend : ℕ) (w : World)
      → 0 < env.max_packet
      → reset_friend env friend w ≡ (ok tt, after_send friend lossless (164 ∷ []) w)
  unfolding reset_friend to_byte
  reset_friend-sends friend w room =
      rw (send_id-lossless connection_reset friend w room (unfold get_send_tox in refl))

  abbrev pub after_callback : ℕ → Event → ℕ → World → World
  after_callback function event friend w = record w {
    actions = callback_called function event friend w.callback_user_data ∷ w.actions;
  }

  pub callback-set :
      (function : ℕ) (event : Event) (friend : ℕ) (w : World)
      → w.callback_function ≡ some function
      → callback event friend w ≡ (ok tt, after_callback function event friend w)
  unfolding callback
  callback-set function event friend w h = rw (h, callback)

  -- The connection is gone from the map, and its tun interface closed.
  abbrev pub after_delete : ℕ → World → World
  after_delete friend w = record w {
    connections = erase friend w.connections;
    actions = tun_closed friend ∷ w.actions;
  }

  pub delete_connection-ok :
      (friend : ℕ) (c : Connection) (w : World)
      → find friend w.connections ≡ some c
      → c.connected_friend ≡ friend
      → delete_connection env friend w ≡ (ok tt, after_delete friend w)
  unfolding delete_connection this store erase_connection destroy say_goodbye
  delete_connection-ok friend c w h e =
      let dying : Connection = record c { state = deleting; connected_friend = friend } in
      rw (h, this, e)
        (rw (
          find-assign_self friend dying c w.connections h,
          erase-assign friend dying w.connections,
          destroy,
        ))

  -- The friend was sent a reset, the program told, and the connection deleted.
  abbrev pub after_reset : ℕ → ℕ → World → World
  after_reset function friend w =
      after_delete friend
        (after_callback function connection_closed friend (after_send friend lossless (164 ∷ []) w))

  pub reset_and_delete-ok :
      (friend : ℕ) (c : Connection) (function : ℕ) (w : World)
      → find friend w.connections ≡ some c
      → c.connected_friend ≡ friend
      → w.callback_function ≡ some function
      → 0 < env.max_packet
      → reset_and_delete_connection env friend w ≡ (ok tt, after_reset function friend w)
  unfolding reset_and_delete_connection reset_connection this
  reset_and_delete-ok friend c function w h e called room =
      let sent : World = after_send friend lossless (164 ∷ []) w in
      rw
        (
          h,
          this,
          e,
          reset_friend-sends friend w room,
          callback-set function connection_closed friend sent called,
        )
        (rw (
          delete_connection-ok friend c (after_callback function connection_closed friend sent) h
            e))

  -- With no callback set, a reset ends the process.
  pub reset_and_delete-terminates :
      (friend : ℕ) (c : Connection) (w : World)
      → find friend w.connections ≡ some c
      → w.callback_function ≡ none
      → 0 < env.max_packet
      → (reset_and_delete_connection env friend w).0 ≡ err terminated
  unfolding reset_and_delete_connection reset_connection this callback
  reset_and_delete-terminates friend c w h silent room =
      rw (h, this, reset_friend-sends c.connected_friend w room, silent, callback)
