-- ===== src/Connection.antt =====
-- src/Connection.hpp and src/Connection.cpp: sending, and the life of a connection; its other
-- methods are in Handlers and Incoming. `friend` names
-- the object on which a method runs; it is found in the map of the core each time it is used.
use lib_tox_tun.Base.{
  ℕ, ◌+◌, Bool, true, false, Option, none, some, List, [], ◌∷◌, leb, ◌==◌, if◌then◌else◌,
}
use lib_tox_tun.Errors.{Fault, Result, ok, err, thrown, concat}
use lib_tox_tun.Data.{
  Data, PacketId, connection_request, connection_reject, connection_close, connection_reset,
  SendTox, lossless, lossy, from_packet_id, get_send_tox, get_tox_data, get_tox_data_len,
}
use lib_tox_tun.Split.{get_splitted}
use lib_tox_tun.Assoc.{find, erase}
use lib_tox_tun.World.{
  Env, Connection, negsuc, connection_closed, State, own_request_pending, friends_request_pending,
  expecting_ip_packet, expecting_ip_confirmation, connected, deleting, tun_opened, tun_closed,
}
use lib_tox_tun.World.Exec.{
  Exec, pure, raise, lift, attempt, try_catch, noexcept, act, tick, this, store, callback, tox_send,
  ◌>>=◌, ◌>>◌,
}

-- `ToxTunError(Logger::concat("...", friendNumber))`
abbrev pub cannot_send : SendTox → ℕ → Fault
cannot_send lossless friend =
    thrown (record { message = concat "Can't send lossless packet to " friend; silent = false })
cannot_send lossy friend =
    thrown (record { message = concat "Can't send lossy packet to " friend; silent = false })

abbrev pub check : Bool → Fault → Exec (Unit {0})
check true e = pure tt
check false e = raise e

-- `(*i == 255) ? 0 : *i + 1`
abbrev pub next_index : ℕ → ℕ
next_index i = if i == 255 then 0 else i + 1

-- `*nextFragmentIndex` and its increment. `none` is the null pointer.
unfoldable pub take_index : Option ℕ → Exec ℕ
take_index none = pure 0
take_index (some friend) = do
  c ← this friend
  store friend (record c { next_fragment_index = next_index c.next_fragment_index })
  pure c.next_fragment_index

module _ (env : Env) where
  unfoldable pub packets_of : Data → Option ℕ → Exec (List Data)
  packets_of d slot =
      if leb (get_tox_data_len d) env.max_packet
      then pure (d ∷ [])
      else do index ← take_index slot; lift (get_splitted env.max_packet d index)

  unfoldable pub send_packet : ℕ → Data → Exec (Unit {0})
  send_packet friend d = do
    mode ← lift (get_send_tox d)
    bytes ← lift (get_tox_data d)
    status ← tox_send env friend mode bytes
    check status (cannot_send mode friend)

  unfoldable pub send_packets : ℕ → List Data → Exec (Unit {0})
  send_packets friend [] = pure tt
  send_packets friend (d ∷ ds) = do send_packet friend d; send_packets friend ds

  -- The static `sendToTox(data, friendNumber, tox, nextFragmentIndex)`.
  unfoldable pub send_to_tox_from : Data → ℕ → Option ℕ → Exec (Unit {0})
  send_to_tox_from d friend slot = do packets ← packets_of d slot; send_packets friend packets

  -- The member `sendToTox(data)`.
  unfoldable pub send_to_tox : ℕ → Data → Exec (Unit {0})
  send_to_tox friend d = do c ← this friend; send_to_tox_from d c.connected_friend (some friend)

  -- `try { sendToTox(Data::fromPacketId(id)) } catch (ToxTunError &error) {}` with no index.
  unfoldable pub send_id : PacketId → ℕ → Exec (Unit {0})
  send_id id friend = do
    d ← lift (from_packet_id id)
    try_catch (send_to_tox_from d friend none) (pure tt)

  -- The static `resetConnection(friendNumber, tox)`.
  unfoldable pub reset_friend : ℕ → Exec (Unit {0})
  reset_friend friend = noexcept (send_id connection_reset friend)

  -- What `~Connection` does before the members are destroyed. It runs on an object that is no
  -- longer in the map, and its packets of one byte need no fragment index.
  unfoldable pub say_goodbye : State → ℕ → Exec (Unit {0})
  say_goodbye friends_request_pending friend = noexcept (send_id connection_reject friend)
  say_goodbye own_request_pending friend =
      noexcept (do reset_friend friend; callback connection_closed friend)
  say_goodbye expecting_ip_packet friend =
      noexcept (do reset_friend friend; callback connection_closed friend)
  say_goodbye expecting_ip_confirmation friend =
      noexcept (do reset_friend friend; callback connection_closed friend)
  say_goodbye connected friend = noexcept (send_id connection_close friend)
  say_goodbye deleting friend = pure tt

  -- `~Connection`
  unfoldable pub destroy : Option Connection → Exec (Unit {0})
  destroy none = pure tt
  destroy (some c) = do say_goodbye c.state c.connected_friend; act (tun_closed c.connected_friend)

  -- ToxTunCore::deleteConnection: `connections.erase(friendNumber)`, which destroys the object.
  unfoldable pub erase_connection : ℕ → Exec (Unit {0})
  erase_connection friend w =
      destroy (find friend w.connections) (record w { connections = erase friend w.connections })

  -- Connection::deleteConnection
  unfoldable pub delete_connection : ℕ → Exec (Unit {0})
  delete_connection friend = noexcept (do
    c ← this friend
    store friend (record c { state = deleting })
    erase_connection c.connected_friend)

  -- The member `resetConnection()`.
  unfoldable pub reset_connection : ℕ → Exec (Unit {0})
  reset_connection friend = noexcept (do
    c ← this friend
    reset_friend c.connected_friend
    callback connection_closed c.connected_friend)

  unfoldable pub reset_and_delete_connection : ℕ → Exec (Unit {0})
  reset_and_delete_connection friend =
      noexcept (do reset_connection friend; delete_connection friend)

  abbrev pub initial_state : Bool → State
  initial_state true = own_request_pending
  initial_state false = friends_request_pending

  abbrev pub fresh : ℕ → Bool → ℕ → Connection
  fresh friend initiate port = record {
    state = initial_state initiate;
    fragments = [];
    connected_friend = friend;
    next_fragment_index = 0;
    subnet = negsuc 0;
    tox_udp_port = port;
  }

  -- `sendConnectionRequest()`
  unfoldable pub send_connection_request : ℕ → Exec (Unit {0})
  send_connection_request friend = do
    d ← lift (from_packet_id connection_request)
    send_to_tox_from d friend none

  -- If the constructor's body throws, the members are destroyed and `~Connection` does not run.
  abbrev pub or_close_tun : ℕ → Result (Unit {0}) → Exec (Unit {0})
  or_close_tun friend (ok a) w = (ok a, w)
  or_close_tun friend (err e) w = (err e, record w { actions = tun_closed friend ∷ w.actions })

  abbrev pub request : Bool → ℕ → Exec (Unit {0})
  request false friend w = (ok tt, w)
  request true friend w =
      or_close_tun friend (send_connection_request friend w).0 (send_connection_request friend w).1

  unfoldable pub construct : ℕ → Bool → Exec Connection
  construct friend initiate = do
    asking ← tick
    opening ← tick
    attempt (env.open_tun opening)
    act (tun_opened friend)
    request initiate friend
    pure (fresh friend initiate (env.self_udp_port asking))
