-- ===== src/Assoc.antt =====
-- `std::map` with numbers as keys: entries in the order of the keys, as the program iterates.
pub mod Every
use lib_tox_tun.Base.{
  ℕ, ◌+◌, ◌≤◌, ◌<◌, ◌≡◌, ◌≢◌, refl, Option, none, some, List, [], ◌∷◌, arith, ltb, ◌==◌,
  if◌then◌else◌,
}

module _ {ℓ} {V : Type ℓ} where
  unfoldable pub find : ℕ → List (ℕ × V) → Option V
  find k [] = none
  find k ((j, v) ∷ m) = if j == k then some v else find k m

  -- `m.erase(k)`
  unfoldable pub erase : ℕ → List (ℕ × V) → List (ℕ × V)
  erase k [] = []
  erase k ((j, v) ∷ m) = if j == k then m else (j, v) ∷ erase k m

  -- `m.emplace(k, v)`, which leaves an entry for `k` as it is.
  unfoldable pub emplace : ℕ → V → List (ℕ × V) → List (ℕ × V)
  emplace k v [] = (k, v) ∷ []
  emplace k v ((j, u) ∷ m) =
      let rest = emplace k v m in
      if ltb k j then (k, v) ∷ (j, u) ∷ m else if j == k then (j, u) ∷ m else (j, u) ∷ rest

  -- A write through the reference `m.at(k)`.
  unfoldable pub assign : ℕ → V → List (ℕ × V) → List (ℕ × V)
  assign k v [] = []
  assign k v ((j, u) ∷ m) = if j == k then (j, v) ∷ m else (j, u) ∷ assign k v m

  -- The keys rise along the list, from `n` on.
  abbrev pub Keyed : ℕ → List (ℕ × V) → Type 0
  Keyed n [] = Unit {0}
  Keyed n ((j, v) ∷ m) = (n ≤ j) × Keyed (j + 1) m

module _ {ℓ} {V : Type ℓ} where
  pub Keyed-weaken : {a b : ℕ} (m : List (ℕ × V)) → a ≤ b → Keyed b m → Keyed a m
  Keyed-weaken [] h k = tt
  Keyed-weaken ((j, v) ∷ m) h k = (omega arith, k.1)

  pub find_below : (k n : ℕ) (m : List (ℕ × V)) → Keyed n m → k < n → find k m ≡ none
  unfolding find
  find_below k n [] s h = refl
  find_below k n ((j, v) ∷ m) s h = ground (arith, find_below k (j + 1) m s.1)

  pub erase-Keyed : (k n : ℕ) (m : List (ℕ × V)) → Keyed n m → Keyed n (erase k m)
  unfolding erase
  erase-Keyed k n [] s = tt
  erase-Keyed k n ((j, v) ∷ m) s =
      ground (arith, erase-Keyed k (j + 1) m s.1, Keyed-weaken {a = n} {b = j + 1} m)

  pub assign-Keyed : (k n : ℕ) (v : V) (m : List (ℕ × V)) → Keyed n m → Keyed n (assign k v m)
  unfolding assign
  assign-Keyed k n v [] s = tt
  assign-Keyed k n v ((j, u) ∷ m) s = ground (arith, assign-Keyed k (j + 1) v m s.1)

  pub emplace-Keyed :
      (k n : ℕ) (v : V) (m : List (ℕ × V)) → n ≤ k → Keyed n m → Keyed n (emplace k v m)
  unfolding emplace
  emplace-Keyed k n v [] h s = (h, tt)
  emplace-Keyed k n v ((j, u) ∷ m) h s =
      ground (arith, emplace-Keyed k (j + 1) v m, Keyed-weaken {a = k + 1} {b = j} m)

  pub find-erase_self : (k n : ℕ) (m : List (ℕ × V)) → Keyed n m → find k (erase k m) ≡ none
  unfolding find erase
  find-erase_self k n [] s = refl
  find-erase_self k n ((j, v) ∷ m) s =
      ground (arith, find-erase_self k (j + 1) m s.1, find_below k (j + 1) m s.1)

  pub find-erase_ne : (k i : ℕ) (m : List (ℕ × V)) → i ≢ k → find i (erase k m) ≡ find i m
  unfolding find erase
  find-erase_ne k i [] h = refl
  find-erase_ne k i ((j, v) ∷ m) h = ground (arith, find-erase_ne k i m h)

  pub find-assign :
      (k i : ℕ) (v u : V) (m : List (ℕ × V))
      → find k m ≡ some u
      → find i (assign k v m) ≡ (if i == k then some v else find i m)
  unfolding find assign
  find-assign k i v u [] h = absurd (cc)
  find-assign k i v u ((j, x) ∷ m) h = ground (arith, find-assign k i v u m)

  pub find-emplace :
      (k i n : ℕ) (v : V) (m : List (ℕ × V))
      → Keyed n m
      → find k m ≡ none
      → find i (emplace k v m) ≡ (if i == k then some v else find i m)
  unfolding find emplace
  find-emplace k i n v [] s h = ground arith
  find-emplace k i n v ((j, u) ∷ m) s h =
      ground (arith, find-emplace k i (j + 1) v m s.1, find_below k (j + 1) m s.1)

  pub erase-assign : (k : ℕ) (v : V) (m : List (ℕ × V)) → erase k (assign k v m) ≡ erase k m
  unfolding erase assign
  erase-assign k v [] = refl
  erase-assign k v ((j, u) ∷ m) = ground (arith, erase-assign k v m)

  pub find-assign_self :
      (k : ℕ) (v u : V) (m : List (ℕ × V)) → find k m ≡ some u → find k (assign k v m) ≡ some v
  unfolding find assign
  find-assign_self k v u [] h = absurd (cc)
  find-assign_self k v u ((j, x) ∷ m) h = ground (arith, find-assign_self k v u m)

  pub assign-assign :
      (k : ℕ) (v u : V) (m : List (ℕ × V)) → assign k v (assign k u m) ≡ assign k v m
  unfolding assign
  assign-assign k v u [] = refl
  assign-assign k v u ((j, x) ∷ m) = ground (arith, assign-assign k v u m)

  pub assign_same : (k : ℕ) (v : V) (m : List (ℕ × V)) → find k m ≡ some v → assign k v m ≡ m
  unfolding find assign
  assign_same k v [] h = refl
  assign_same k v ((j, x) ∷ m) h = ground (arith, assign_same k v m)

  pub erase_absent : (k : ℕ) (m : List (ℕ × V)) → find k m ≡ none → erase k m ≡ m
  unfolding find erase
  erase_absent k [] h = refl
  erase_absent k ((j, x) ∷ m) h = ground (arith, erase_absent k m)

  pub assign-emplace :
      (k : ℕ) (v u : V) (m : List (ℕ × V))
      → find k m ≡ none
      → assign k v (emplace k u m) ≡ emplace k v m
  unfolding find assign emplace
  assign-emplace k v u [] h = ground arith
  assign-emplace k v u ((j, x) ∷ m) h = ground (arith, assign-emplace k v u m)

  pub erase-emplace :
      (k : ℕ) (v : V) (m : List (ℕ × V)) → find k m ≡ none → erase k (emplace k v m) ≡ m
  unfolding find erase emplace
  erase-emplace k v [] h = ground arith
  erase-emplace k v ((j, x) ∷ m) h = ground (arith, erase-emplace k v m)
