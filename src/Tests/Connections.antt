-- ===== src/Tests/Connections.antt =====
-- Connections and the core.
use lib_tox_tun.Malformed.{empty_fragment, empty_fragment_crash}
use lib_tox_tun.Split.{get_splitted}
use lib_tox_tun.Proposal.{free_at, searched, after_proposal, send_ip-found, send_ip-exhausted}
use lib_tox_tun.Tun.{none_in_subnet}
use lib_tox_tun.Handlers.{send_ip}
use lib_tox_tun.Core.{close_connection, reject_connection, get_connection_state}
use lib_tox_tun.Lifecycle.{closed, close_connection-closes}
use lib_tox_tun.Sending.{with_index, handed, AllTaken, StopsAt, send_to_tox-deliver}
use lib_tox_tun.Closing.{after_send}
use lib_tox_tun.Connection.{cannot_send}
use lib_tox_tun.Connection.{send_to_tox}
use lib_tox_tun.Base.{ℕ, zero, suc, ◌+◌, ◌<◌, false, eq_self, ◌≡◌, refl, [], ◌∷◌, arith, ◌⊎◌, List}
use lib_tox_tun.Errors.{ok, err, undefined, terminated}
use lib_tox_tun.Data.{Data, lossy, get_tox_header}
use lib_tox_tun.Assoc.{find}
use lib_tox_tun.World.{
  World, Env, disconnected, own_request_pending, friends_request_pending, expecting_ip_confirmation,
  connected,
}
use lib_tox_tun.Incoming.{handle_data}
use lib_tox_tun.Closing.{after_reset}
use lib_tox_tun.Unexpected.{proposal_in, unexpected_packet, data_before_connected}
use lib_tox_tun.Scenario.{data_of, calm, crowded, offline, one_friend, with_state}

unexpected_packet_example :
    handle_data offline 7 (data_of (165 ∷ 3 ∷ 2 ∷ [])) (one_friend connected)
    ≡ (ok tt, after_reset offline 1 7 (one_friend connected))
unfolding find get_tox_header
unexpected_packet_example =
    unexpected_packet offline 7 (with_state connected) 1 (one_friend connected)
      (data_of (165 ∷ 3 ∷ 2 ∷ [])) (omega arith) refl refl refl refl proposal_in refl

data_before_connected_example :
    (handle_data calm 7 (data_of (200 ∷ 1 ∷ [])) (one_friend own_request_pending)).0 ≡ err undefined
unfolding find get_tox_header
data_before_connected_example =
    data_before_connected calm 7 (with_state own_request_pending) 1 (one_friend own_request_pending)
      (data_of (200 ∷ 1 ∷ [])) (omega arith) refl refl refl (omega arith) refl refl

abbrev frame : Data
frame = data_of (200 ∷ 1 ∷ 2 ∷ 3 ∷ 4 ∷ 5 ∷ 6 ∷ [])

abbrev first : Data
first = data_of (201 ∷ 9 ∷ 0 ∷ 3 ∷ 200 ∷ 1 ∷ 2 ∷ [])

abbrev second : Data
second = data_of (201 ∷ 9 ∷ 1 ∷ 3 ∷ 3 ∷ 4 ∷ 5 ∷ [])

abbrev third : Data
third = data_of (201 ∷ 9 ∷ 2 ∷ 3 ∷ 6 ∷ [])

empty_fragment_crash_example :
    (handle_data calm 7 (empty_fragment 5 0) (one_friend friends_request_pending)).0
    ≡ err terminated
unfolding find
empty_fragment_crash_example =
    empty_fragment_crash calm 7 5 0 (with_state friends_request_pending)
      (one_friend friends_request_pending) refl tt refl

only_first : (i : ℕ) → i < 1 → free_at calm (0 + i) (0 + i) ≡ false
unfolding none_in_subnet
only_first zero below = refl
only_first (suc i) below = absurd (omega arith)

send_ip-found_example : send_ip offline 7 (one_friend expecting_ip_confirmation) ≡ (
  ok tt,
  after_proposal offline 7 1 1 (
      searched 7 (with_state expecting_ip_confirmation) 1 2 (one_friend expecting_ip_confirmation)),
)
unfolding find none_in_subnet
send_ip-found_example =
    send_ip-found offline 7 (with_state expecting_ip_confirmation) 1
      (one_friend expecting_ip_confirmation) 0 1 refl refl refl refl only_first (omega arith) refl
      (omega arith)

all_used : (i : ℕ) → i < 256 → free_at crowded (0 + i) (0 + i) ≡ false
unfolding none_in_subnet
all_used i below = let a : 0 + i ≡ i = omega arith in rw (a, eq_self i)

send_ip-exhausted_example : send_ip crowded 7 (one_friend expecting_ip_confirmation) ≡ (
  ok tt,
  after_reset crowded 1 7 (
      searched 7
        (with_state expecting_ip_confirmation)
        256
        257
        (one_friend expecting_ip_confirmation)),
)
unfolding find
send_ip-exhausted_example =
    send_ip-exhausted crowded 7 (with_state expecting_ip_confirmation) 1
      (one_friend expecting_ip_confirmation) 0 256 refl refl refl refl all_used refl (omega arith)

close_connection-closes_example :
    (close_connection calm 7 (one_friend connected)
      ≡ (ok tt, closed calm 1 connected 7 (one_friend connected)))
    × (reject_connection calm 7 (one_friend connected)
        ≡ (ok tt, closed calm 1 connected 7 (one_friend connected)))
    × (get_connection_state 7 (closed calm 1 connected 7 (one_friend connected)) ≡ disconnected)
    × (get_connection_state 8 (closed calm 1 connected 7 (one_friend connected))
        ≡ get_connection_state 8 (one_friend connected))
unfolding find
close_connection-closes_example =
    close_connection-closes calm 7 8 (with_state connected) 1 (one_friend connected) (omega arith)
      refl refl refl (omega arith) (omega arith)

abbrev long_frame : Data
long_frame = data_of (200 ∷ 1 ∷ 2 ∷ 3 ∷ 4 ∷ 5 ∷ 6 ∷ 7 ∷ [])

abbrev long_first : Data
long_first = data_of (201 ∷ 0 ∷ 0 ∷ 3 ∷ 200 ∷ 1 ∷ 2 ∷ [])

abbrev long_second : Data
long_second = data_of (201 ∷ 0 ∷ 1 ∷ 3 ∷ 3 ∷ 4 ∷ 5 ∷ [])

abbrev long_last : Data
long_last = data_of (201 ∷ 0 ∷ 2 ∷ 3 ∷ 6 ∷ 7 ∷ [])

-- Tox takes packets of seven bytes.
abbrev narrow : Env
narrow = record calm { max_packet = 7 }

abbrev renumbered : World
renumbered = with_index 7 (with_state connected) 1 (one_friend connected)

abbrev parts : List Data
parts = long_last ∷ long_second ∷ long_first ∷ []

send_to_tox-deliver_example :
    ((send_to_tox narrow 7 long_frame (one_friend connected)
        ≡ (ok tt, handed narrow 7 parts renumbered))
      × AllTaken narrow 7 parts renumbered)
    ⊎ ((given : List Data) × (last : Data) × StopsAt narrow 7 parts renumbered given last
        × (send_to_tox narrow 7 long_frame (one_friend connected) ≡ (
          err (cannot_send lossy 7),
          after_send narrow 7 lossy last.bytes (handed narrow 7 given renumbered),
        )))
unfolding find get_splitted
send_to_tox-deliver_example =
    send_to_tox-deliver narrow 7 (with_state connected) (one_friend connected) long_frame parts refl
      (omega arith) (omega arith, omega arith, omega arith, omega arith) (omega arith) refl
