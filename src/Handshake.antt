-- ===== src/Handshake.antt =====
-- src/ToxTunCore.cpp and src/Connection.cpp: two peers, each with its own core, that negotiate a
-- connection by the packets that tox carries from one to the other.
pub mod Receiving
pub mod Subnets
pub mod Caller
pub mod Proposing
pub mod Callee
pub mod Agreement
pub mod GivingUp
pub mod Failure
pub mod Parting
use lib_tox_tun.Base.{
  ℕ, zero, suc, Bool, true, false, Option, none, some, List, [], ◌∷◌, ◌++◌, ◌==◌, ◌&&◌,
  if◌then◌else◌,
}
use lib_tox_tun.Errors.{Result, ok, err}
use lib_tox_tun.World.{
  World, Env, Action, packet_sent, callback_called, tun_opened, tun_closed, ip_set, frame_written,
}
use lib_tox_tun.World.Exec.{Exec}
use lib_tox_tun.Core.{tox_packet_callback, send_request, accept_connection}

-- The packets to the friend that tox took, the earliest first.
abbrev pub posted : ℕ → List Action → List (List ℕ)
posted friend [] = []
posted friend (packet_sent f mode bytes status ∷ earlier) =
    let before = posted friend earlier in
    if (f == friend) && status then before ++ (bytes ∷ []) else before
posted friend (callback_called function event f user_data ∷ earlier) = posted friend earlier
posted friend (tun_opened f ∷ earlier) = posted friend earlier
posted friend (tun_closed f ∷ earlier) = posted friend earlier
posted friend (ip_set f subnet postfix ∷ earlier) = posted friend earlier
posted friend (frame_written f frame ∷ earlier) = posted friend earlier

abbrev pub answered : ℕ → List Action → Result (Unit {0}) × World → Option (World × List (List ℕ))
answered friend log (ok done, w) =
    some (record w { actions = w.actions ++ log }, posted friend w.actions)
answered friend log (err e, w) = none

-- A call that returned, and the packets that it sent to the friend.
abbrev pub run : ℕ → Exec (Unit {0}) → World → Option (World × List (List ℕ))
run friend m w = answered friend w.actions (m (record w { actions = [] }))

-- The address that was set last for the friend.
abbrev pub address : ℕ → List Action → Option (ℕ × ℕ)
address friend [] = none
address friend (ip_set f subnet postfix ∷ earlier) =
    let before = address friend earlier in if f == friend then some (subnet, postfix) else before
address friend (packet_sent f mode bytes status ∷ earlier) = address friend earlier
address friend (callback_called function event f user_data ∷ earlier) = address friend earlier
address friend (tun_opened f ∷ earlier) = address friend earlier
address friend (tun_closed f ∷ earlier) = address friend earlier
address friend (frame_written f frame ∷ earlier) = address friend earlier

abbrev pub then_some : {A B : Type 0} → Option A → (A → Option B) → Option B
then_some none f = none
then_some (some a) f = f a

-- The caller, with the environment `a`, knows the callee as `callee`; the callee, with the
-- environment `b`, knows the caller as `caller`.
module _ (a b : Env) (caller callee : ℕ) where
  -- tox hands over the packets to the callee, then those to the caller, each in its order, until
  -- none is left. A packet for each round.
  abbrev pub talk : ℕ → World → World → List (List ℕ) → List (List ℕ) → Option (World × World)
  talk fuel u v [] [] = some (u, v)
  talk zero u v _ _ = none
  talk (suc fuel) u v (bytes ∷ to_callee) to_caller =
      then_some (run caller (tox_packet_callback b caller bytes) v)
        (λ r. talk fuel u r.0 to_callee (to_caller ++ r.1))
  talk (suc fuel) u v [] (bytes ∷ to_caller) =
      then_some (run callee (tox_packet_callback a callee bytes) u)
        (λ r. talk fuel r.0 v r.1 to_caller)

  -- The caller's program asks, and the callee's program accepts once it was told.
  abbrev pub meet : ℕ → World → World → Option (World × World)
  meet fuel u v = then_some (run callee (send_request a callee) u) λ asked.
      then_some (talk fuel asked.0 v asked.1 []) λ rung.
        then_some (run caller (accept_connection b caller) rung.1)
          λ agreed. talk fuel rung.0 agreed.0 [] agreed.1
