-- ===== src/Tests/Meeting.antt =====
-- Two peers meet: 7 calls 9.
use lib_tox_tun.Base.{
  ℕ, zero, suc, ◌<◌, ◌≡◌, refl, false, some, List, [], ◌∷◌, arith, ◌==◌, Bool-cases, inl, inr,
}
use lib_tox_tun.Assoc.{find}
use lib_tox_tun.Tun.{Address, none_in_subnet}
use lib_tox_tun.World.{
  World, Env, is_connected, disconnected, connected, connection_closed, callback_called, tun_closed,
  negsuc, returned,
}
use lib_tox_tun.Core.{get_connection_state}
use lib_tox_tun.Handshake.{meet, address}
use lib_tox_tun.Handshake.Agreement.{IsReady, IsFree, LeastUnused, meet-LeastUnused}
use lib_tox_tun.Handshake.Failure.{meet-disconnected}
use lib_tox_tun.Handshake.Receiving.{Stands}
use lib_tox_tun.Handshake.Parting.{part, part-disconnected}
use lib_tox_tun.Scenario.{calm, empty_world, one_friend, with_state}

abbrev in_use : List Address
in_use =
    record { a0 = 192; a1 = 168; a2 = 0; a3 = 5 } ∷ record { a0 = 10; a1 = 0; a2 = 0; a3 = 1 } ∷ []

calm-IsReady : IsReady calm in_use
calm-IsReady = record {
  room = omega arith;
  takes = λ now friend mode bytes. refl;
  opens = λ now. refl;
  uses = λ now. refl;
}

empty-IsFree : (friend : ℕ) → IsFree friend 1 empty_world
unfolding find
empty-IsFree friend = record { new = refl; keyed = tt; set = refl }

zero_in_use : (i : ℕ) → i < 1 → none_in_subnet i in_use ≡ false
unfolding none_in_subnet
zero_in_use zero below = refl
zero_in_use (suc i) below = absurd (omega arith)

one-LeastUnused : LeastUnused in_use in_use 1
unfolding none_in_subnet
one-LeastUnused = record {
  free_a = refl;
  free_b = refl;
  in_range = omega arith;
  below = λ i below free. zero_in_use i below;
}

meet-LeastUnused_example :
    (u : World) × (v : World) × (meet calm calm 7 9 6 empty_world empty_world ≡ some (u, v))
    × (get_connection_state 9 u ≡ is_connected)
    × (get_connection_state 7 v ≡ is_connected)
    × (address 9 u.actions ≡ some (1, 1))
    × (address 7 v.actions ≡ some (1, 2))
meet-LeastUnused_example =
    meet-LeastUnused calm calm 7 9 1 1 in_use in_use 1 6 empty_world empty_world calm-IsReady
      calm-IsReady (empty-IsFree 9) (empty-IsFree 7) one-LeastUnused (omega arith)

-- The subnets below `n`.
abbrev below_all : ℕ → List Address
below_all zero = []
below_all (suc n) = record { a0 = 192; a1 = 168; a2 = n; a3 = 1 } ∷ below_all n

all_taken : (n i : ℕ) → i < n → none_in_subnet i (below_all n) ≡ false
unfolding none_in_subnet
all_taken zero i inside = absurd (omega arith)
all_taken (suc n) i inside = elim (Bool-cases (n == i)) [
  | inl same ↦ rw same refl
  | inr other ↦ rw other (all_taken n i (ground arith))
]

-- All subnets are in use.
abbrev full : Env
full = record calm { used_addresses = λ now. returned (below_all 256) }

full-IsReady : IsReady full (below_all 256)
full-IsReady = record {
  room = omega arith;
  takes = λ now friend mode bytes. refl;
  opens = λ now. refl;
  uses = λ now. refl;
}

meet-disconnected_example :
    (u : World) × (v : World) × (meet calm full 7 9 516 empty_world empty_world ≡ some (u, v))
    × (get_connection_state 9 u ≡ disconnected)
    × (get_connection_state 7 v ≡ disconnected)
meet-disconnected_example =
    meet-disconnected calm full 7 9 1 1 in_use (below_all 256) 516 empty_world empty_world
      calm-IsReady full-IsReady (empty-IsFree 9) (empty-IsFree 7)
      (λ i inside free. all_taken 256 i (omega arith)) (omega arith)

abbrev up : World
up = one_friend connected

up-Stands : Stands connected (negsuc 0) 7 1 up
unfolding find
up-Stands = record {
  c = with_state connected;
  there = refl;
  keyed = omega arith;
  named = refl;
  in_state = refl;
  at_subnet = refl;
  set = refl;
}

part-disconnected_example :
    (u : World) × (v : World) × (part calm calm 7 7 up up ≡ some (u, v))
    × (get_connection_state 7 u ≡ disconnected)
    × (get_connection_state 7 v ≡ disconnected)
    × (v.actions ≡ tun_closed 7 ∷ callback_called 1 connection_closed 7 2 ∷ [])
part-disconnected_example =
    part-disconnected calm calm 7 7 1 1 (negsuc 0) (negsuc 0) up up (omega arith)
      (λ now to mode bytes. refl) up-Stands up-Stands
