-- ===== src/Handshake/Subnets.antt =====
-- src/Connection.cpp, `sendIp`: where its search for a free subnet stops.
use lib_tox_tun.Base.{
  ℕ, zero, suc, ◌+◌, ◌-◌, ◌<◌, ◌≤◌, ◌≡◌, refl, true, false, List, arith, Bool-cases, ◌⊎◌, inl, inr,
}
use lib_tox_tun.Tun.{Address, none_in_subnet}
use lib_tox_tun.World.{ℤ, pos}
use lib_tox_tun.Handlers.{incr}

-- The subnet `t` is the least above `z` that is not used.
pub record Next (used : List Address) (z : ℤ) (t : ℕ) : Type 0 where
  pub first : ℕ
  pub passed : ℕ
  pub at_first : incr z ≡ pos first
  pub reaches : first + passed ≡ t
  pub taken : (i : ℕ) → i < passed → none_in_subnet (first + i) used ≡ false
  pub is_free : none_in_subnet t used ≡ true
  pub in_range : t ≤ 255

-- No subnet above `z` is free.
pub record Over (used : List Address) (z : ℤ) : Type 0 where
  pub first : ℕ
  pub passed : ℕ
  pub at_first : incr z ≡ pos first
  pub reaches : first + passed ≡ 256
  pub taken : (i : ℕ) → i < passed → none_in_subnet (first + i) used ≡ false

module _ (used : List Address) where
  also_first :
      (p m : ℕ)
      → none_in_subnet p used ≡ false
      → ((i : ℕ) → i < m → none_in_subnet (p + 1 + i) used ≡ false)
      → (i : ℕ) → i < m + 1
      → none_in_subnet (p + i) used ≡ false
  also_first p m taken rest zero below = let e : p + 0 ≡ p = omega arith in rw (e, taken) refl
  also_first p m taken rest (suc i) below =
      let e : p + suc i ≡ p + 1 + i = omega arith in rw e (rest i (omega arith))

  -- Some subnet among `k` is the first that is free, or none is free.
  first_or_none :
      (p k : ℕ)
      → ((m : ℕ) × (m < k)
          × (none_in_subnet (p + m) used ≡ true)
          × ((i : ℕ) → i < m → none_in_subnet (p + i) used ≡ false))
        ⊎ ((i : ℕ) → i < k → none_in_subnet (p + i) used ≡ false)
  first_or_none p zero = inr (λ i below. absurd (omega arith))
  first_or_none p (suc k) = elim (Bool-cases (none_in_subnet p used)) [
    | inl now ↦
        let e : p + 0 ≡ p = omega arith in
        inl (0, omega arith, rw (e, now) refl, λ i below. absurd (omega arith))
    | inr taken ↦ elim (first_or_none (p + 1) k) [
      | inl (m, few, free, rest) ↦
          let e : p + (m + 1) ≡ p + 1 + m = omega arith in
          inl (m + 1, omega arith, rw e free, also_first p m taken rest)
      | inr rest ↦ inr (λ i below. also_first p k taken rest i (omega arith))
    ]
  ]

  -- The search of the caller finds a subnet, or gives up.
  pub Next-cases :
      (z : ℤ) (p : ℕ) → incr z ≡ pos p → p ≤ 256 → ((n : ℕ) × Next used z n × (p ≤ n)) ⊎ Over used z
  Next-cases z p at inside = elim (first_or_none p (256 - p)) [
    | inl (m, few, free, rest) ↦ inl (
      p + m,
      record {
        first = p;
        passed = m;
        at_first = at;
        reaches = refl;
        taken = rest;
        is_free = free;
        in_range = omega arith;
      },
      omega arith,
    )
    | inr rest ↦
        inr (record {
          first = p;
          passed = 256 - p;
          at_first = at;
          reaches = omega arith;
          taken = rest;
        })
  ]

  -- It finds a subnet that is free, if not one before.
  pub Next-bounded :
      (z : ℤ) (p t : ℕ)
      → incr z ≡ pos p
      → p ≤ t
      → t ≤ 255
      → none_in_subnet t used ≡ true
      → (n : ℕ) × Next used z n × (p ≤ n) × (n ≤ t)
  Next-bounded z p t at behind inside free = elim (first_or_none p (t - p + 1)) [
    | inl (m, few, free', rest) ↦ (
      p + m,
      record {
        first = p;
        passed = m;
        at_first = at;
        reaches = refl;
        taken = rest;
        is_free = free';
        in_range = omega arith;
      },
      omega arith,
      omega arith,
    )
    | inr none ↦
        let e : p + (t - p) ≡ t = omega arith in
        let taken = rw e at (none (t - p) (omega arith)) in absurd (cc)
  ]
