-- ===== src/Tests/Calls.antt =====
-- Calls of the core, one after another, and a set of fragments.
use lib_tox_tun.Base.{
  Option, none, some, List, ◌⊎◌, All, ◌≡◌, ◌<◌, ℕ, leb, true, ◌+◌, ◌≢◌, refl, [], ◌∷◌, length,
  arith,
}
use lib_tox_tun.Errors.{err, diverged}
use lib_tox_tun.World.{World}
use lib_tox_tun.Core.{
  tox_packet_callback, handle_packet, greet, handle_connection_request, emplace_connection,
  send_request, iterate_all, iterate_each, get_connection_state,
}
use lib_tox_tun.Data.{
  from_tox_data, get_tox_header, from_packet_id, get_send_tox, get_tox_data, get_tox_data_len,
  to_byte, get_ip_postfix, get_ip_subnet, size_mod,
}
use lib_tox_tun.Connection.{
  construct, reset_and_delete_connection, reset_connection, reset_friend, send_id,
  delete_connection, erase_connection, destroy, say_goodbye, send_to_tox_from, packets_of,
  send_packets, send_packet, send_connection_request,
}
use lib_tox_tun.World.Exec.{this, store, callback, tox_send}
use lib_tox_tun.Incoming.{handle_data, handle_data_on, dispatch, iterate, iterate_on}
use lib_tox_tun.Handlers.{handle_ip_proposal, expect}
use lib_tox_tun.Assoc.{find, emplace, assign, erase}
use lib_tox_tun.Invariant.{IsValid}
use lib_tox_tun.Invariant.Reached.{
  Call, request_sent, packet_received, connection_ended, perform, Reached, start, call,
  Reached-IsValid, perform-ends,
}
use lib_tox_tun.Isolation.{perform_all, perform_all-find}
use lib_tox_tun.Consent.{Harmless}
use lib_tox_tun.Consent.Asking.{Happening, called, iterated, happen, happen-consent}
use lib_tox_tun.Scenario.{calm, empty_world, one_friend}
use lib_tox_tun.World.{Env, connected, returned, disconnected, friend_is_ringing}
use lib_tox_tun.Rounds.{iterate-ends}

-- After the program sent a request to friend 7.
abbrev ringing_world : World
ringing_world = (perform calm (request_sent 7) empty_world).1

ringing_world-Reached : Reached calm ringing_world
unfolding send_request emplace_connection construct send_connection_request find send_to_tox_from
    packets_of send_packets send_packet tox_send get_tox_data get_tox_data_len get_send_tox
    from_packet_id
ringing_world-Reached = call {w = empty_world} (request_sent 7) (start refl) tt

Reached-IsValid_example : IsValid ringing_world
Reached-IsValid_example = Reached-IsValid calm (omega arith) ringing_world-Reached

perform-ends_example : (perform calm (packet_received 7 (161 ∷ [])) ringing_world).0 ≢ err diverged
perform-ends_example =
    perform-ends calm ringing_world (packet_received 7 (161 ∷ [])) (omega arith)
      ringing_world-Reached

-- A frame is always pending, and the time is over from the third call on.
abbrev flooded : Env
flooded = record calm {
  data_pending = λ now. returned true;
  read_tun = λ now. returned (1 ∷ 2 ∷ []);
  elapsed_over = λ now time. leb 3 now;
}

small_frames :
    (now : ℕ) (frame : List ℕ) → flooded.read_tun now ≡ returned frame → length frame + 5 < size_mod
small_frames now frame e = let same : 1 ∷ 2 ∷ [] ≡ frame = cc (e) in rw (← same) (omega arith)

iterate-ends_example : (iterate flooded 4 7 500 (one_friend connected)).0 ≢ err diverged
iterate-ends_example =
    iterate-ends flooded (omega arith) small_frames 3 500 (λ now h. ground arith) 4 7
      (one_friend connected) (omega arith)

-- Friend 9 asks and says that his request was accepted, while 7 rings.
abbrev others : List Call
others = packet_received 9 (160 ∷ []) ∷ packet_received 9 (161 ∷ []) ∷ connection_ended 9 ∷ []

perform_all-find_example :
    find 7 (perform_all calm others ringing_world).connections ≡ find 7 ringing_world.connections
perform_all-find_example =
    perform_all-find calm ringing_world 7 others (omega arith) ringing_world-Reached
      (omega arith, (omega arith, (omega arith, tt)))

-- Friend 9 asks, proposes an address and sends a frame, and 7 is asked.
abbrev intruding : List Happening
intruding =
    called (packet_received 9 (160 ∷ []))
    ∷ called (packet_received 9 (165 ∷ 3 ∷ 2 ∷ []))
    ∷ iterated 3
    ∷ called (request_sent 7)
    ∷ called (packet_received 9 (200 ∷ 1 ∷ []))
    ∷ []

abbrev or_empty : Option World → World
or_empty none = empty_world
or_empty (some w) = w

abbrev intruded : World
intruded = or_empty (happen calm intruding empty_world)

intruding_returns : happen calm intruding empty_world ≡ some intruded
unfolding tox_packet_callback handle_packet greet handle_connection_request emplace_connection
    send_request iterate_all iterate_each from_tox_data get_tox_header from_packet_id get_send_tox
    get_tox_data get_tox_data_len to_byte get_ip_postfix get_ip_subnet construct
    reset_and_delete_connection reset_connection reset_friend send_id delete_connection
    erase_connection destroy say_goodbye send_to_tox_from packets_of send_packets send_packet
    send_connection_request this store callback tox_send handle_data handle_data_on dispatch iterate
    iterate_on handle_ip_proposal expect find emplace assign erase
intruding_returns = refl

happen-consent_example :
    ((get_connection_state 9 intruded ≡ disconnected)
      ⊎ (get_connection_state 9 intruded ≡ friend_is_ringing))
    × All (Harmless 9) intruded.actions
happen-consent_example =
    happen-consent calm 9 empty_world intruded intruding (omega arith) refl refl
      (tt, (tt, (tt, (omega arith, (tt, tt))))) intruding_returns
