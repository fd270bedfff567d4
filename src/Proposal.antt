-- ===== src/Proposal.antt =====
-- src/Connection.cpp, `sendIp`: which subnet is proposed.
mod Search
pub use Search.{free_at, assume_unused-asks, tried, search_subnet-step, search_subnet-over}
use lib_tox_tun.Proposal.Search.{tried, AllUsed, search_subnet-finds, search_subnet-exhausted}
use lib_tox_tun.Base.{
  ℕ, zero, suc, ◌+◌, ◌%◌, ◌≤◌, ◌<◌, ◌≡◌, refl, Bool, true, false, none, some, List, [], ◌∷◌, arith,
  ◌==◌, ◌⊎◌, if◌then◌else◌, Bool-cases, inl, inr,
}
use lib_tox_tun.Errors.{ToxTunError, Result, ok, err, thrown}
use lib_tox_tun.Data.{Data, to_byte, get_send_tox, lossless, from_ip_postfix}
use lib_tox_tun.Tun.{Address, none_in_subnet, is_addrspace_unused}
use lib_tox_tun.Assoc.{find, assign, assign_same, find-assign_self}
use lib_tox_tun.World.{
  packet_sent, World, Env, Connection, ℤ, pos, negsuc, Attempt, returned, failed,
}
use lib_tox_tun.World.Exec.{this, store}
use lib_tox_tun.Handlers.{
  incr, to_byte_of, is_256, addrspace_unused, assume_unused, search_subnet, propose, send_or_reset,
  send_ip,
}
use lib_tox_tun.Connection.{send_to_tox}
use lib_tox_tun.Closing.{after_send, after_reset, reset_and_delete-ok, send_to_tox_from-fits}

pub from_ip_postfix-is :
    (subnet postfix : ℕ)
    → from_ip_postfix subnet postfix
      ≡ ok (record { bytes = 165 ∷ subnet ∷ postfix ∷ []; tox_header_set = true })
unfolding from_ip_postfix to_byte
from_ip_postfix-is subnet postfix = refl

abbrev pub proposal : ℕ → Data
proposal subnet = record { bytes = 165 ∷ subnet ∷ 2 ∷ []; tox_header_set = true }

-- `asked` subnets were asked for, and the connection has the last of them.
abbrev pub searched : ℕ → Connection → ℕ → ℕ → World → World
searched friend c subnet asked w = record w {
  connections = assign friend (record c { subnet = pos subnet }) w.connections;
  clock = w.clock + asked;
}

-- The proposal was given to tox; if tox refused it, the connection was reset and deleted.
abbrev pub after_proposal : Env → ℕ → ℕ → ℕ → World → World
after_proposal env friend function subnet w =
    let sent = after_send env friend lossless (165 ∷ subnet ∷ 2 ∷ []) w in
    if env.send_status w.clock friend lossless (165 ∷ subnet ∷ 2 ∷ [])
    then sent
    else after_reset env function friend sent

module _ (env : Env) (friend : ℕ) (c : Connection) (function : ℕ) (w : World) (s k : ℕ)
    (h : find friend w.connections ≡ some c) (named : c.connected_friend ≡ friend)
    (set : w.callback_function ≡ some function) (at : incr c.subnet ≡ pos s)
    (used : (i : ℕ) → i < k → free_at env (w.clock + i) (s + i) ≡ false) where
  all_used : AllUsed env friend c w h 0 s k
  all_used i below = let a : 0 + i ≡ i = omega arith in rw a (used i below)

  at_start : tried env friend c w h c.subnet 0 ≡ w
  at_start =
      let a : w.clock + 0 ≡ w.clock = omega arith in rw (assign_same friend c w.connections h, a)

  send_or_reset-proposal :
      (subnet : ℕ) (v : World)
      → find friend v.connections ≡ some (record c { subnet = pos subnet })
      → v.callback_function ≡ some function
      → 2 < env.max_packet
      → send_or_reset env friend (proposal subnet) v
        ≡ (ok tt, after_proposal env friend function subnet v)
  unfolding send_or_reset send_to_tox this
  send_or_reset-proposal subnet v there set' room =
      let e =
        send_to_tox_from-fits env (proposal subnet) friend (some friend) lossless v (omega arith)
          refl (unfold get_send_tox in refl) in
      elim (Bool-cases (env.send_status v.clock friend lossless (165 ∷ subnet ∷ 2 ∷ []))) [
        | inl accepted ↦ rw (there, named, e, accepted)
        | inr refused ↦
            rw (there, named, e, refused)
              (reset_and_delete-ok env friend (record c { subnet = pos subnet }) function
                (record v {
                  clock = v.clock + 1;
                  actions = packet_sent friend lossless (165 ∷ subnet ∷ 2 ∷ []) false ∷ v.actions;
                })
                there named set' (omega arith))
      ]

  propose-found :
      (n : ℕ)
      → s + k ≤ 255
      → 2 < env.max_packet
      → propose env friend true (tried env friend c w h (pos (s + k)) n) ≡ (
        ok tt,
        after_proposal env friend function (s + k) (tried env friend c w h (pos (s + k)) n),
      )
  unfolding this
  propose-found n inside room =
      let small : (s + k) % 256 ≡ s + k = omega arith in
      let c' : Connection = record c { subnet = pos (s + k) } in
      let kept = find-assign_self friend c' c w.connections h in
      rw (kept, small, from_ip_postfix-is (s + k) 2)
        (send_or_reset-proposal (s + k) (tried env friend c w h (pos (s + k)) n) kept set room)

  -- `sendIp` proposes the least subnet above its last one that is taken for unused when it asks: `s`
  -- is the next subnet, the `k` subnets from `s` on are used, and `s + k` is not. The postfix of the
  -- peer is 2. If tox refuses the proposal, the connection is reset and deleted.
  pub send_ip-found :
      s + k ≤ 255
      → free_at env (w.clock + k) (s + k) ≡ true
      → 2 < env.max_packet
      → send_ip env friend w
        ≡ (ok tt, after_proposal env friend function (s + k) (searched friend c (s + k) (k + 1) w))
  unfolding send_ip
  send_ip-found inside free room =
      let found =
        search_subnet-finds env friend c w h 257 c.subnet 0 s k at (omega arith) inside all_used
          (let a : 0 + k ≡ k = omega arith in rw a free) in
      let a : 0 + k ≡ k = omega arith in
      rw (rw at_start at found, propose-found (0 + k + 1) inside room) (rw a)

  -- If all subnets up to 255 are used, `sendIp` asks once more, resets and deletes the connection,
  -- and proposes nothing.
  pub send_ip-exhausted :
      s + k ≡ 256
      → 0 < env.max_packet
      → send_ip env friend w
        ≡ (ok tt, after_reset env function friend (searched friend c 256 (k + 1) w))
  unfolding send_ip
  send_ip-exhausted last room =
      let found =
        search_subnet-exhausted env friend c w h function 257 c.subnet 0 s k at (omega arith) last
          all_used named set room in
      let a : 0 + k ≡ k = omega arith in rw (rw at_start at found) (rw a)
