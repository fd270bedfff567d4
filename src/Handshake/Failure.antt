-- ===== src/Handshake/Failure.antt =====
-- src/ToxTunCore.cpp and src/Connection.cpp: two peers who find no common subnet.
use lib_tox_tun.Base.{
  ℕ, zero, suc, ◌+◌, ◌*◌, ◌≤◌, ◌≡◌, refl, true, false, Option, some, List, [], ◌∷◌, arith, inl, inr,
}
use lib_tox_tun.Tun.{Address, none_in_subnet}
use lib_tox_tun.World.{
  World, Env, expecting_ip_packet, expecting_ip_confirmation, disconnected, ℤ, pos, negsuc,
}
use lib_tox_tun.Core.{get_connection_state}
use lib_tox_tun.Handshake.{talk, meet}
use lib_tox_tun.Handshake.Subnets.{Next-cases}
use lib_tox_tun.Handshake.Receiving.{Stands}
use lib_tox_tun.Handshake.Caller.{asks}
use lib_tox_tun.Handshake.Proposing.{searches, retries}
use lib_tox_tun.Handshake.Callee.{rings, accepts, refuses}
use lib_tox_tun.Handshake.GivingUp.{Gone, reset_by, gives_up_first, gives_up_later}
use lib_tox_tun.Handshake.Agreement.{IsReady, IsFree}

module _ (a b : Env) (caller callee fa fb : ℕ) (used_a used_b : List Address)
    (ra : IsReady a used_a) (rb : IsReady b used_b)
    (disjoint : (i : ℕ)
      → i ≤ 255
      → none_in_subnet i used_a ≡ true
      → none_in_subnet i used_b ≡ false) where
  -- Both have no connection to the other.
  abbrev Parted : Option (World × World) → Type 0
  Parted o =
      (u : World) × (v : World) × (o ≡ some (u, v))
      × (get_connection_state callee u ≡ disconnected)
      × (get_connection_state caller v ≡ disconnected)

  Gone-disconnected :
      (friend : ℕ) (w : World) → Gone friend w → get_connection_state friend w ≡ disconnected
  unfolding get_connection_state
  Gone-disconnected friend w h = rw (h, get_connection_state) refl

  -- The caller has given up, and his reset is on the way.
  talk-reset :
      (fuel : ℕ) (z : ℤ) (u v : World)
      → Gone callee u
      → Stands expecting_ip_packet z caller fb v
      → Parted (talk a b caller callee (suc fuel) u v ((164 ∷ []) ∷ []) [])
  talk-reset fuel z u v gone sv =
      let (v', last, gone') = reset_by b caller fb z v sv in
      (u, v', rw last refl, Gone-disconnected callee u gone, Gone-disconnected caller v' gone')

  -- The caller has proposed `t`, which the callee uses.
  talk-Parted :
      (fuel t : ℕ) (z : ℤ) (u v : World)
      → 513 ≤ fuel + 2 * t
      → t ≤ 255
      → none_in_subnet t used_a ≡ true
      → Stands expecting_ip_confirmation (pos t) callee fa u
      → Stands expecting_ip_packet z caller fb v
      → Parted (talk a b caller callee fuel u v ((165 ∷ t ∷ 2 ∷ []) ∷ []) [])
  talk-Parted zero t z u v enough inside free su sv = absurd (omega arith)
  talk-Parted (suc zero) t z u v enough inside free su sv = absurd (omega arith)
  talk-Parted (suc (suc zero)) t z u v enough inside free su sv = absurd (omega arith)
  talk-Parted (suc (suc (suc fuel))) t z u v enough inside free su sv =
      let (v', answer, sv') =
        refuses b caller fb rb.room rb.takes z v used_b rb.uses t sv (disjoint t inside free) in
      elim (Next-cases used_a (pos t) (t + 1) refl (omega arith)) [
        | inl (t', next, after) ↦
            let (u', again, su') =
              retries a callee fa ra.room ra.takes (pos t) u used_a ra.uses t' next su in
            rw (answer, again)
              (talk-Parted (suc fuel) t' z u' v' (omega arith) next.in_range next.is_free su' sv')
        | inr over ↦
            let (u', again, gone) =
              gives_up_later a callee fa ra.room ra.takes used_a ra.uses (pos t) u over su in
            rw (answer, again) (talk-reset fuel z u' v' gone sv')
      ]

-- Two peers without a connection to each other, each map in the order of its keys, whose programs
-- have set a callback, and each subnet up to 255 is in use at one of them. One asks for a
-- connection, and the other accepts once it was told; tox takes every packet and carries it. Then,
-- with fuel for 516 packets, every call returns, and both end disconnected. The addresses in use
-- stay the same, tun interfaces open, and three bytes fit into a packet.
pub meet-disconnected :
    (a b : Env) (caller callee fa fb : ℕ) (used_a used_b : List Address) (fuel : ℕ) (u v : World)
    → IsReady a used_a
    → IsReady b used_b
    → IsFree callee fa u
    → IsFree caller fb v
    → ((i : ℕ) → i ≤ 255 → none_in_subnet i used_a ≡ true → none_in_subnet i used_b ≡ false)
    → 516 ≤ fuel
    → (u' : World) × (v' : World) × (meet a b caller callee fuel u v ≡ some (u', v'))
      × (get_connection_state callee u' ≡ disconnected)
      × (get_connection_state caller v' ≡ disconnected)
meet-disconnected a b caller callee fa fb used_a used_b zero u v ra rb iu iv disjoint enough =
    absurd (omega arith)
meet-disconnected a b caller callee fa fb used_a used_b (suc zero) u v ra rb iu iv disjoint enough =
    absurd (omega arith)
meet-disconnected a b caller callee fa fb used_a used_b (suc (suc fuel)) u v ra rb iu iv disjoint
      enough =
    let (u1, asked, su1) = asks a callee fa ra.room ra.takes u iu.new iu.keyed iu.set ra.opens in
    let (v1, rung, sv1) = rings b caller fb rb.room rb.takes v iv.new iv.keyed iv.set rb.opens in
    let (v2, agreed, sv2) = accepts b caller fb rb.room rb.takes (negsuc 0) v1 sv1 in
    elim (Next-cases used_a (negsuc 0) 0 refl (omega arith)) [
      | inl (t, next, after) ↦
          let (u2, proposed, su2) =
            searches a callee fa ra.room ra.takes (negsuc 0) u1 used_a ra.uses t next su1 in
          rw asked (
            rw rung (
              rw (agreed, proposed)
                (talk-Parted a b caller callee fa fb used_a used_b ra rb disjoint (suc fuel) t
                  (negsuc 0) u2 v2 (omega arith) next.in_range next.is_free su2 sv2)))
      | inr over ↦
          let (u2, reset, gone) =
            gives_up_first a callee fa ra.room ra.takes used_a ra.uses (negsuc 0) u1 over su1 in
          rw asked (
            rw rung (
              rw (agreed, reset)
                (talk-reset a b caller callee fa fb used_a used_b ra rb disjoint fuel (negsuc 0) u2
                  v2 gone sv2)))
    ]
