-- ===== src/Tests/Proposals.antt =====
-- The negotiation of a subnet.
use lib_tox_tun.Base.{◌≡◌, refl, [], ◌∷◌, arith}
use lib_tox_tun.Errors.{ok, err, undefined}
use lib_tox_tun.Data.{lossless}
use lib_tox_tun.Tun.{none_in_subnet}
use lib_tox_tun.Assoc.{find}
use lib_tox_tun.World.{World, expecting_ip_packet}
use lib_tox_tun.Incoming.{handle_data}
use lib_tox_tun.Closing.{after_send}
use lib_tox_tun.Negotiation.{
  proposal_of, established, asked, handle_data-proposal_accepted, handle_data-proposal_undelivered,
}
use lib_tox_tun.Scenario.{calm, offline, one_friend, with_state}

abbrev start : World
start = one_friend expecting_ip_packet

handle_data-proposal_accepted_example : handle_data calm 7 (proposal_of 3 2) start ≡ (
  ok tt,
  established 7
      (with_state expecting_ip_packet)
      1
      3
      2
      (after_send calm 7 lossless (166 ∷ []) (asked start)),
)
unfolding find none_in_subnet
handle_data-proposal_accepted_example =
    handle_data-proposal_accepted calm 7 (with_state expecting_ip_packet) 1 start 3 2 (omega arith)
      refl refl refl refl refl refl

handle_data-proposal_undelivered_example :
    (handle_data offline 7 (proposal_of 3 2) start).0 ≡ err undefined
unfolding find none_in_subnet
handle_data-proposal_undelivered_example =
    handle_data-proposal_undelivered offline 7 (with_state expecting_ip_packet) 1 start 3 2
      (omega arith) refl refl refl refl (omega arith) refl refl
