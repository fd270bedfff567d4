-- ===== src/Handshake/Agreement.antt =====
-- src/ToxTunCore.cpp and src/Connection.cpp: the subnet on which two peers agree.
use lib_tox_tun.Base.{
  ap, ◌∙◌, ℕ, zero, suc, ◌+◌, ◌*◌, ◌<◌, ◌≤◌, ◌≡◌, refl, true, false, Option, none, some, List, [],
  ◌∷◌, arith, ◌==◌, Bool-cases, inl, inr,
}
use lib_tox_tun.Data.{SendTox}
use lib_tox_tun.Tun.{Address, none_in_subnet}
use lib_tox_tun.Assoc.{Keyed, find}
use lib_tox_tun.World.{
  World, Env, expecting_ip_packet, expecting_ip_confirmation, connected, is_connected, ℤ, pos,
  negsuc, returned,
}
use lib_tox_tun.Handlers.{connection_state}
use lib_tox_tun.Core.{get_connection_state}
use lib_tox_tun.Handshake.{talk, meet, address}
use lib_tox_tun.Handshake.Receiving.{Stands}
use lib_tox_tun.Handshake.Subnets.{Next-bounded}
use lib_tox_tun.Handshake.Caller.{asks, confirmed}
use lib_tox_tun.Handshake.Proposing.{searches, retries}
use lib_tox_tun.Handshake.Callee.{rings, accepts, refuses, agrees}

-- tox takes packets of three bytes and every packet, tun interfaces open, and the addresses in use
-- stay the same.
pub record IsReady (env : Env) (used : List Address) : Type 0 where
  pub room : 2 < env.max_packet
  pub takes :
      (now friend : ℕ) (mode : SendTox) (bytes : List ℕ)
      → env.send_status now friend mode bytes ≡ true
  pub opens : (now : ℕ) → env.open_tun now ≡ returned tt
  pub uses : (now : ℕ) → env.used_addresses now ≡ returned used

-- No connection to the friend, in a map that is in the order of its keys, and a callback.
pub record IsFree (friend function : ℕ) (w : World) : Type 0 where
  pub new : find friend w.connections ≡ none
  pub keyed : Keyed 0 w.connections
  pub set : w.callback_function ≡ some function

-- The least subnet that neither peer uses.
pub record LeastUnused (used_a used_b : List Address) (s : ℕ) : Type 0 where
  pub free_a : none_in_subnet s used_a ≡ true
  pub free_b : none_in_subnet s used_b ≡ true
  pub in_range : s ≤ 255
  pub below : (i : ℕ) → i < s → none_in_subnet i used_a ≡ true → none_in_subnet i used_b ≡ false

module _ (a b : Env) (caller callee fa fb : ℕ) (used_a used_b : List Address)
    (ready_a : IsReady a used_a) (ready_b : IsReady b used_b) (s : ℕ)
    (least : LeastUnused used_a used_b s) where
  -- Both are connected, with addresses in the same subnet.
  abbrev Settled : Option (World × World) → Type 0
  Settled o =
      (u : World) × (v : World) × (o ≡ some (u, v))
      × (get_connection_state callee u ≡ is_connected)
      × (get_connection_state caller v ≡ is_connected)
      × (address callee u.actions ≡ some (s, 1))
      × (address caller v.actions ≡ some (s, 2))

  Stands-connected :
      (z : ℤ) (friend function : ℕ) (w : World)
      → Stands connected z friend function w
      → get_connection_state friend w ≡ is_connected
  unfolding get_connection_state connection_state
  Stands-connected z friend function w h = rw (h.there, get_connection_state, h.in_state) refl

  -- The caller has proposed `t`, and the callee waits for it.
  talk-Settled :
      (fuel t : ℕ) (z : ℤ) (u v : World)
      → 2 * s + 2 ≤ fuel + 2 * t
      → t ≤ s
      → none_in_subnet t used_a ≡ true
      → Stands expecting_ip_confirmation (pos t) callee fa u
      → Stands expecting_ip_packet z caller fb v
      → Settled (talk a b caller callee fuel u v ((165 ∷ t ∷ 2 ∷ []) ∷ []) [])
  talk-Settled zero t z u v enough inside free su sv = absurd (omega arith)
  talk-Settled (suc zero) t z u v enough inside free su sv = absurd (omega arith)
  talk-Settled (suc (suc fuel)) t z u v enough inside free su sv = elim (Bool-cases (t == s)) [
    | inl same ↦
        let it : t ≡ s = ground arith in
        let (v', answer, (sv', at_v)) =
          agrees b caller fb ready_b.room ready_b.takes z v used_b ready_b.uses t sv
            (rw it least.free_b) in
        let (u', last, (su', at_u)) =
          confirmed a callee fa ready_a.room ready_a.takes z u t (rw it least.in_range) su in
        (
          u',
          v',
          rw (answer, last) refl,
          Stands-connected (pos t) callee fa u' su',
          Stands-connected z caller fb v' sv',
          at_u ∙ ap (λ x. some (x, 1)) it,
          at_v ∙ ap (λ x. some (x, 2)) it,
        )
    | inr other ↦
        let (v', answer, sv') =
          refuses b caller fb ready_b.room ready_b.takes z v used_b ready_b.uses t sv
            (least.below t (ground arith) free) in
        let (t', next, after, before) =
          Next-bounded used_a (pos t) (t + 1) s refl (ground arith) least.in_range least.free_a in
        let (u', again, su') =
          retries a callee fa ready_a.room ready_a.takes (pos t) u used_a ready_a.uses t' next su in
        rw (answer, again) (talk-Settled fuel t' z u' v' (omega arith) before next.is_free su' sv')
  ]

-- Two peers without a connection to each other, each map in the order of its keys, whose programs
-- have set a callback, and for whom `s` is the least subnet that neither uses. One asks for a
-- connection, and the other accepts once it was told; tox takes every packet and carries it. Then,
-- with fuel for `2 * s + 4` packets, every call returns, and both are connected, with addresses in
-- that subnet, the caller's with postfix 1 and the callee's with postfix 2. The addresses in use
-- stay the same, tun interfaces open, and three bytes fit into a packet.
pub meet-LeastUnused :
    (a b : Env) (caller callee fa fb : ℕ) (used_a used_b : List Address) (s fuel : ℕ) (u v : World)
    → IsReady a used_a
    → IsReady b used_b
    → IsFree callee fa u
    → IsFree caller fb v
    → LeastUnused used_a used_b s
    → 2 * s + 4 ≤ fuel
    → (u' : World) × (v' : World) × (meet a b caller callee fuel u v ≡ some (u', v'))
      × (get_connection_state callee u' ≡ is_connected)
      × (get_connection_state caller v' ≡ is_connected)
      × (address callee u'.actions ≡ some (s, 1))
      × (address caller v'.actions ≡ some (s, 2))
meet-LeastUnused a b caller callee fa fb used_a used_b s zero u v ra rb iu iv least enough =
    absurd (omega arith)
meet-LeastUnused a b caller callee fa fb used_a used_b s (suc fuel) u v ra rb iu iv least enough =
    let (u1, asked, su1) = asks a callee fa ra.room ra.takes u iu.new iu.keyed iu.set ra.opens in
    let (v1, rung, sv1) = rings b caller fb rb.room rb.takes v iv.new iv.keyed iv.set rb.opens in
    let (v2, agreed, sv2) = accepts b caller fb rb.room rb.takes (negsuc 0) v1 sv1 in
    let (t, next, after, before) =
      Next-bounded used_a (negsuc 0) 0 s refl (omega arith) least.in_range least.free_a in
    let (u2, proposed, su2) =
      searches a callee fa ra.room ra.takes (negsuc 0) u1 used_a ra.uses t next su1 in
    rw asked (
      rw rung (
        rw (agreed, proposed)
          (talk-Settled a b caller callee fa fb used_a used_b ra rb s least fuel t (negsuc 0) u2 v2
            (omega arith) before next.is_free su2 sv2)))
