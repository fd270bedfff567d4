-- ===== src/Handshake/Receiving.antt =====
-- src/ToxTunCore.cpp: one call of a peer in a meeting, and what it leaves.
use lib_tox_tun.Base.{ℕ, ◌≡◌, refl, true, some, List, [], ◌∷◌, ◌++◌}
use lib_tox_tun.Errors.{ok}
use lib_tox_tun.Data.{Data, from_tox_data}
use lib_tox_tun.Assoc.{Keyed, find}
use lib_tox_tun.World.{World, Env, Connection, State, ℤ}
use lib_tox_tun.World.Exec.{Exec}
use lib_tox_tun.Incoming.{handle_data}
use lib_tox_tun.Core.{handle_packet, tox_packet_callback}
use lib_tox_tun.Handshake.{posted, run}

-- The callback is `function`, and the connection to the friend is in `state`.
pub record Stands (state : State) (subnet : ℤ) (friend function : ℕ) (w : World) : Type 0 where
  pub c : Connection
  pub there : find friend w.connections ≡ some c
  pub keyed : Keyed 0 w.connections
  pub named : c.connected_friend ≡ friend
  pub in_state : c.state ≡ state
  pub at_subnet : c.subnet ≡ subnet
  pub set : w.callback_function ≡ some function

-- The call returns, sends `packets` to the friend, and leaves a world with `P`.
abbrev pub Answers : ℕ → Exec (Unit {0}) → World → List (List ℕ) → (World → Type 0) → Type 0
Answers friend m w packets P = (w' : World) × (run friend m w ≡ some (w', packets)) × P w'

-- The call begins with an empty list of actions.
abbrev pub begun : World → World
begun w = record w { actions = [] }

abbrev pub ended : World → World → World
ended w w' = record w' { actions = w'.actions ++ w.actions }

pub run-ok :
    (friend : ℕ) (m : Exec (Unit {0})) (w w' : World)
    → m (begun w) ≡ (ok tt, w')
    → run friend m w ≡ some (ended w w', posted friend w'.actions)
run-ok friend m w w' e = rw e refl

-- A packet as tox hands it over.
abbrev pub packet : List ℕ → Data
packet bytes = record { bytes = bytes; tox_header_set = true }

module _ (env : Env) (friend : ℕ) (bytes : List ℕ) (w w' : World)
    (whole : from_tox_data bytes ≡ ok (packet bytes)) where
  pub callback-handle_packet :
      handle_packet env (packet bytes) friend w ≡ (ok tt, w')
      → tox_packet_callback env friend bytes w ≡ (ok tt, w')
  unfolding tox_packet_callback
  callback-handle_packet e = rw (whole, e)

  pub callback-handle_data :
      {c : Connection}
      → find friend w.connections ≡ some c
      → handle_data env friend (packet bytes) w ≡ (ok tt, w')
      → tox_packet_callback env friend bytes w ≡ (ok tt, w')
  unfolding tox_packet_callback handle_packet
  callback-handle_data there e = rw (whole, there) (rw e)

pub one_byte : (b : ℕ) → from_tox_data (b ∷ []) ≡ ok (packet (b ∷ []))
unfolding from_tox_data
one_byte b = refl

pub three_bytes : (b c d : ℕ) → from_tox_data (b ∷ c ∷ d ∷ []) ≡ ok (packet (b ∷ c ∷ d ∷ []))
unfolding from_tox_data
three_bytes b c d = refl
