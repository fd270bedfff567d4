-- ===== src/Invariant/Searching.antt =====
-- src/Connection.cpp, `sendIp`: its loop ends and keeps the connections sound.
use lib_tox_tun.Base.{
  ℕ, zero, suc, ◌+◌, ◌-◌, ◌≤◌, ◌<◌, ◌≡◌, refl, Bool, true, false, some, arith, ◌==◌, Bool-cases,
  Option-cases, inl, inr,
}
use lib_tox_tun.Assoc.{find, erase-assign, find-assign_self, assign_same}
use lib_tox_tun.Assoc.Every.{find-Every}
use lib_tox_tun.World.{World, Env, Connection, ℤ, pos, negsuc}
use lib_tox_tun.World.Exec.{pure, this}
use lib_tox_tun.Connection.{reset_and_delete_connection}
use lib_tox_tun.Data.{get_send_tox}
use lib_tox_tun.Handlers.{incr, to_byte_of, search_subnet, propose, send_ip}
use lib_tox_tun.Proposal.{
  from_ip_postfix-is, proposal, free_at, tried, search_subnet-step, search_subnet-over,
}
use lib_tox_tun.Invariant.{
  IsSubnet, IsSound, IsValid, Fine, Safe, Fine-continue, assign-IsValid, Safe-this, Safe-noexcept,
}
use lib_tox_tun.Invariant.Closing.{erase-IsValid, reset_and_delete-Fine, Safe-send_or_reset}

-- The rounds that the loop has left.
abbrev rounds : ℤ → ℕ
rounds (pos n) = 256 - n
rounds (negsuc n) = 257

rounds-least : (z : ℤ) → IsSubnet z → 0 < rounds z
rounds-least (pos n) h = omega arith
rounds-least (negsuc n) h = omega arith

pub rounds-most : (z : ℤ) → rounds z ≤ 257
rounds-most (pos n) = omega arith
rounds-most (negsuc n) = omega arith

module _ (env : Env) (room : 2 < env.max_packet) where
  module _ (friend : ℕ) (c : Connection) (w : World) (h : find friend w.connections ≡ some c)
      (s : IsSound friend c) (v : IsValid w) where
    abbrev at : ℤ → ℕ → World
    at z n = tried env friend c w h z n

    abbrev SearchFine : ℕ → ℤ → ℕ → Type 0
    SearchFine fuel z n =
        Fine (search_subnet env fuel friend (at z n)).0 (search_subnet env fuel friend (at z n)).1

    at-IsValid : (z : ℤ) (n : ℕ) → IsSubnet z → IsValid (at z n)
    at-IsValid z n inside =
        assign-IsValid friend (record c { subnet = z }) w v
          (record {
            own_key = s.own_key;
            alive = s.alive;
            in_range = inside;
            next_is_byte = s.next_is_byte;
            sets_keyed = s.sets_keyed;
            sets = s.sets;
          })

    search-next :
        (fuel : ℕ) (z : ℤ) (n k : ℕ)
        → incr z ≡ pos k
        → k ≤ 255
        → SearchFine fuel (pos k) (n + 1)
        → SearchFine (suc fuel) z n
    search-next fuel z n k next inside rest =
        let not_256 : (k == 256) ≡ false = ground arith in
        let step = search_subnet-step env friend c w h fuel z n (rw next not_256) in
        elim (Bool-cases (free_at env (w.clock + n) (to_byte_of (incr z)))) [
          | inl free ↦ rw (step, free, next) (at-IsValid (pos k) (n + 1) inside)
          | inr used ↦ rw (step, used, next) rest
        ]

    search-over : (fuel : ℕ) (z : ℤ) (n : ℕ) → incr z ≡ pos 256 → SearchFine (suc fuel) z n
    search-over fuel z n over =
        let c' : Connection = record c { subnet = pos 256 } in
        let reset = reset_and_delete_connection env friend (at (pos 256) (n + 1)) in
        let erased = erase-IsValid friend w v in
        rw (search_subnet-over env friend c w h fuel z n over) (
          Fine-continue reset.0 (λ done. pure false) reset.1
            (reset_and_delete-Fine env room friend c' (at (pos 256) (n + 1))
              (find-assign_self friend c' c w.connections h) s.own_key
              (rw (erase-assign friend c' w.connections) erased))
            (λ done e v'. v'))

    search-Fine : (fuel : ℕ) (z : ℤ) (n : ℕ) → IsSubnet z → rounds z ≤ fuel → SearchFine fuel z n
    search-Fine zero z n inside enough = absurd (omega (arith, rounds-least z inside))
    search-Fine (suc fuel) (negsuc zero) n inside enough =
        search-next fuel (negsuc zero) n 0 refl (omega arith)
          (search-Fine fuel (pos 0) (n + 1) (omega arith) (omega arith))
    search-Fine (suc fuel) (negsuc (suc k)) n inside enough = absurd (omega arith)
    search-Fine (suc fuel) (pos k) n inside enough = elim (Bool-cases (k == 255)) [
      | inl last ↦ search-over fuel (pos k) n (let e : k ≡ 255 = ground arith in rw e)
      | inr before ↦
          search-next fuel (pos k) n (k + 1) refl (ground arith)
            (search-Fine fuel (pos (k + 1)) (n + 1) (ground arith) (omega arith))
    ]

    pub search_subnet-Fine :
        Fine (search_subnet env 257 friend w).0 (search_subnet env 257 friend w).1
    search_subnet-Fine =
        let same : at c.subnet 0 ≡ w =
          let now : w.clock + 0 ≡ w.clock = omega arith in
          rw (assign_same friend c w.connections h, now) in
        rw same at (search-Fine 257 c.subnet 0 s.in_range (rounds-most c.subnet))

  Safe-propose : (friend : ℕ) (found : Bool) → Safe (propose env friend found)
  Safe-propose friend false = λ w v. v
  Safe-propose friend true = Safe-this friend _ λ c w v h s.
      rw (from_ip_postfix-is (to_byte_of c.subnet) 2) (
        Safe-send_or_reset env room friend (proposal (to_byte_of c.subnet)) (omega arith) refl
          (unfold get_send_tox in refl) w v)

  pub Safe-send_ip : (friend : ℕ) → Safe (send_ip env friend)
  unfolding send_ip
  Safe-send_ip friend = Safe-noexcept _ (λ w v. elim (Option-cases (find friend w.connections)) [
    | inl absent ↦ unfold search_subnet this in rw (absent, this) tt
    | inr (c, h) ↦
        let s = find-Every IsSound friend w.connections c v.1 h in
        let search = search_subnet env 257 friend w in
        Fine-continue search.0 (propose env friend) search.1 (search_subnet-Fine friend c w h s v)
          (λ found e v'. Safe-propose friend found search.1 v')
  ])
