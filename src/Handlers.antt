-- ===== src/Handlers.antt =====
-- src/Connection.cpp, the negotiation: what a connection does on each packet but a fragment, and
-- the methods that accept a request and forward frames.
use lib_tox_tun.Base.{ℕ, zero, suc, ◌+◌, ◌-◌, ◌%◌, Bool, true, false, ◌==◌, if◌then◌else◌}
use lib_tox_tun.Errors.{thrown, diverged, Result, ok, err, error}
use lib_tox_tun.Data.{
  Data, connection_accept, ip_accept, ip_reject, from_packet_id, from_ip_postfix, get_ip_postfix,
  get_ip_subnet, get_ip_data,
}
use lib_tox_tun.Tun.{is_addrspace_unused}
use lib_tox_tun.World.{
  Env, ℤ, pos, negsuc, connection_accepted, connection_rejected, connection_closed, ConnectionState,
  is_connected, ringing_at_friend, friend_is_ringing, disconnected, State, own_request_pending,
  friends_request_pending, expecting_ip_packet, expecting_ip_confirmation, connected, deleting,
  ip_set, frame_written,
}
use lib_tox_tun.World.Exec.{
  Exec, pure, raise, lift, attempt, try_catch, noexcept, act, tick, this, store, callback, ◌>>=◌,
  ◌>>◌,
}
use lib_tox_tun.Connection.{send_to_tox, delete_connection, reset_and_delete_connection}

abbrev pub same_state : State → State → Bool
same_state own_request_pending own_request_pending = true
same_state friends_request_pending friends_request_pending = true
same_state expecting_ip_packet expecting_ip_packet = true
same_state expecting_ip_confirmation expecting_ip_confirmation = true
same_state connected connected = true
same_state deleting deleting = true
same_state _ _ = false

-- `++subnet`, which `sendIp` does at most to 256.
abbrev pub incr : ℤ → ℤ
incr (pos n) = pos (n + 1)
incr (negsuc zero) = pos 0
incr (negsuc (suc n)) = negsuc n

-- The conversion of an `int16_t` to `uint8_t`.
abbrev pub to_byte_of : ℤ → ℕ
to_byte_of (pos n) = n % 256
to_byte_of (negsuc n) = 255 - n % 256

abbrev pub is_256 : ℤ → Bool
is_256 (pos n) = n == 256
is_256 (negsuc n) = false

module _ (env : Env) where
  -- `if (state != expected) { resetAndDeleteConnection(); return; }` and the rest.
  unfoldable pub expect : State → ℕ → Exec (Unit {0}) → Exec (Unit {0})
  expect state friend body = do
    c ← this friend
    if same_state c.state state then body else reset_and_delete_connection env friend

  -- `tun.isAddrspaceUnused(subnet)`
  unfoldable pub addrspace_unused : ℕ → Exec Bool
  addrspace_unused subnet = do
    now ← tick
    used ← attempt (env.used_addresses now)
    lift (is_addrspace_unused (ok used) subnet)

  -- If that throws, the subnet is assumed to be unused.
  unfoldable pub assume_unused : ℕ → Exec Bool
  assume_unused subnet = try_catch (addrspace_unused subnet) (pure true)

  -- `try { sendToTox(data); } catch (ToxTunError &error) { resetAndDeleteConnection(); }`
  unfoldable pub send_or_reset : ℕ → Data → Exec (Unit {0})
  send_or_reset friend d =
      try_catch (send_to_tox env friend d) (reset_and_delete_connection env friend)

  -- Connection::setIp. `TunInterface::setIp` is `noexcept`, so the `catch` is never entered.
  unfoldable pub set_ip : ℕ → ℕ → ℕ → Exec (Unit {0})
  set_ip friend subnet postfix = noexcept (do
    c ← this friend
    act (ip_set friend subnet postfix)
    store friend (record c { state = connected })
    callback connection_accepted c.connected_friend)

  -- The loop of `sendIp` on fuel. `true` means that a subnet was found.
  unfoldable pub search_subnet : ℕ → ℕ → Exec Bool
  search_subnet zero friend = raise diverged
  search_subnet (suc fuel) friend = do
    c ← this friend
    store friend (record c { subnet = incr c.subnet })
    unused ← assume_unused (to_byte_of (incr c.subnet))
    elim (is_256 (incr c.subnet)) [
      | true ↦ reset_and_delete_connection env friend >> pure false
      | false ↦ elim unused [ true ↦ pure true | false ↦ search_subnet fuel friend ]
    ]

  abbrev pub propose : ℕ → Bool → Exec (Unit {0})
  propose friend false = pure tt
  propose friend true = do
    c ← this friend
    d ← lift (from_ip_postfix (to_byte_of c.subnet) 2)
    send_or_reset friend d

  -- Connection::sendIp. `subnet` goes from at least -1 to at most 256, in 257 rounds.
  unfoldable pub send_ip : ℕ → Exec (Unit {0})
  send_ip friend = noexcept (do found ← search_subnet 257 friend; propose friend found)

  unfoldable pub handle_connection_accepted : ℕ → Exec (Unit {0})
  handle_connection_accepted friend = noexcept (
      expect own_request_pending friend (do
        c ← this friend
        store friend (record c { state = expecting_ip_confirmation })
        send_ip friend))

  unfoldable pub handle_connection_rejected : ℕ → Exec (Unit {0})
  handle_connection_rejected friend = noexcept (
      expect own_request_pending friend (do
        c ← this friend
        callback connection_rejected c.connected_friend
        delete_connection env friend))

  unfoldable pub handle_connection_closed : ℕ → Exec (Unit {0})
  handle_connection_closed friend = noexcept (
      expect connected friend (do
        c ← this friend
        callback connection_closed c.connected_friend
        delete_connection env friend))

  unfoldable pub handle_connection_reset : ℕ → Exec (Unit {0})
  handle_connection_reset friend = noexcept (do
    c ← this friend
    callback connection_closed c.connected_friend
    delete_connection env friend)

  -- With the postfix and the subnet of a valid proposal.
  unfoldable pub answer_proposal : ℕ → ℕ → ℕ → Exec (Unit {0})
  answer_proposal friend postfix subnet = do
    unused ← assume_unused subnet
    if unused
        then (do
          d ← lift (from_packet_id ip_accept)
          send_or_reset friend d
          set_ip friend subnet postfix)
        else (do d ← lift (from_packet_id ip_reject); send_or_reset friend d)

  abbrev pub with_proposal : Result (ℕ × ℕ) → (ℕ → ℕ → Exec (Unit {0})) → Exec (Unit {0})
  with_proposal (ok (postfix, subnet)) k w = k postfix subnet w
  with_proposal (err (thrown e)) k w = (ok tt, w)
  with_proposal (err e) k w = (err e, w)

  abbrev pub proposal_of : Data → Result (ℕ × ℕ)
  proposal_of d = elim (get_ip_postfix d) [
    | ok postfix ↦ elim (get_ip_subnet d) [ ok subnet ↦ ok (postfix, subnet) | err e ↦ err e ]
    | err e ↦ err e
  ]

  unfoldable pub handle_ip_proposal : ℕ → Data → Exec (Unit {0})
  handle_ip_proposal friend d =
      noexcept
        (expect expecting_ip_packet friend (with_proposal (proposal_of d) (answer_proposal friend)))

  unfoldable pub handle_ip_accepted : ℕ → Exec (Unit {0})
  handle_ip_accepted friend = noexcept (
      expect expecting_ip_confirmation friend
        (do c ← this friend; set_ip friend (to_byte_of c.subnet) 1))

  unfoldable pub handle_ip_rejected : ℕ → Exec (Unit {0})
  handle_ip_rejected friend = noexcept (expect expecting_ip_confirmation friend (send_ip friend))

  -- `tun.sendData(data)`, a member of the object.
  unfoldable pub write_frame : ℕ → Data → Exec (Unit {0})
  write_frame friend d = do
    c ← this friend
    frame ← lift (get_ip_data d)
    now ← tick
    attempt (env.write_tun now frame)
    act (frame_written friend frame)

  -- After a reset the frame is written nevertheless.
  unfoldable pub send_to_tun : ℕ → Data → Exec (Unit {0})
  send_to_tun friend d = noexcept (do
    c ← this friend
    if same_state c.state connected then pure tt else reset_and_delete_connection env friend
    try_catch (write_frame friend d) (pure tt))

  -- Connection::acceptConnection
  unfoldable pub accept : ℕ → Exec (Unit {0})
  accept friend = do
    c ← this friend
    if same_state c.state friends_request_pending
        then (do
          store friend (record c { state = expecting_ip_packet })
          d ← lift (from_packet_id connection_accept)
          send_or_reset friend d)
        else raise (error "Connection not on right state to accept connection request")

-- Connection::getConnectionState
unfoldable pub connection_state : State → ConnectionState
connection_state connected = is_connected
connection_state deleting = disconnected
connection_state friends_request_pending = friend_is_ringing
connection_state expecting_ip_packet = friend_is_ringing
connection_state own_request_pending = ringing_at_friend
connection_state expecting_ip_confirmation = ringing_at_friend
