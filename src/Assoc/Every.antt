-- ===== src/Assoc/Every.antt =====
-- A predicate of every entry of a map.
use mathlib.Core.Path.{subst}
use lib_tox_tun.Base.{ℕ, ◌≡◌, some, List, [], ◌∷◌, arith, ◌==◌, Bool-cases, inl, inr, ltb}
use lib_tox_tun.Assoc.{find, erase, emplace, assign}

module _ {ℓ κ} {V : Type ℓ} (P : ℕ → V → Type κ) where
  abbrev pub Every : List (ℕ × V) → Type κ
  Every [] = Unit
  Every ((j, v) ∷ m) = P j v × Every m

module _ {ℓ κ} {V : Type ℓ} (P : ℕ → V → Type κ) where
  pub find-Every : (k : ℕ) (m : List (ℕ × V)) (u : V) → Every P m → find k m ≡ some u → P k u
  unfolding find
  find-Every k [] u s e = absurd (cc)
  find-Every k ((j, v) ∷ m) u s e = elim (Bool-cases (j == k)) [
    | inl hit ↦
        let same : j ≡ k = ground arith in
        let it : v ≡ u = cc (rw hit at e) in subst (λ i. P i u) same (subst (λ x. P j x) it s.0)
    | inr miss ↦ find-Every k m u s.1 (rw miss at e)
  ]

  pub erase-Every : (k : ℕ) (m : List (ℕ × V)) → Every P m → Every P (erase k m)
  unfolding erase
  erase-Every k [] s = tt
  erase-Every k ((j, v) ∷ m) s = elim (Bool-cases (j == k)) [
    | inl hit ↦ rw hit s.1
    | inr miss ↦ rw miss (s.0, erase-Every k m s.1)
  ]

  pub assign-Every : (k : ℕ) (u : V) (m : List (ℕ × V)) → P k u → Every P m → Every P (assign k u m)
  unfolding assign
  assign-Every k u [] h s = tt
  assign-Every k u ((j, v) ∷ m) h s = elim (Bool-cases (j == k)) [
    | inl hit ↦ let same : k ≡ j = ground arith in rw hit (subst (λ i. P i u) same h, s.1)
    | inr miss ↦ rw miss (s.0, assign-Every k u m h s.1)
  ]

  pub emplace-Every :
      (k : ℕ) (u : V) (m : List (ℕ × V)) → P k u → Every P m → Every P (emplace k u m)
  unfolding emplace
  emplace-Every k u [] h s = (h, tt)
  emplace-Every k u ((j, v) ∷ m) h s = elim (Bool-cases (ltb k j)) [
    | inl before ↦ rw before (h, s)
    | inr behind ↦ elim (Bool-cases (j == k)) [
      | inl hit ↦ rw (behind, hit) s
      | inr miss ↦ rw (behind, miss) (s.0, emplace-Every k u m h s.1)
    ]
  ]
