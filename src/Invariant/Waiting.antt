-- ===== src/Invariant/Waiting.antt =====
-- src/Connection.cpp, `handleFragment`: the bytes that wait in the sets of a connection, and that
-- the sets stay as they should.
use lib_tox_tun.Base.{
  ℕ, ◌+◌, ◌%◌, ◌≤◌, ◌≡◌, refl, none, some, List, [], ◌∷◌, length, arith, Option-cases, Bool-cases,
  inl, inr, ◌==◌,
}
use lib_tox_tun.Data.{Data}
use lib_tox_tun.Assembly.{total_bytes}
use lib_tox_tun.Assoc.{
  Keyed, find, erase, emplace, assign, erase-Keyed, emplace-Keyed, assign-Keyed,
}
use lib_tox_tun.Assoc.Every.{Every, find-Every, erase-Every, emplace-Every, assign-Every}
use lib_tox_tun.Incoming.{Fragments, collect, take_out, waiting_bytes}
use lib_tox_tun.Invariant.{IsSetOf, Waits}

waiting-erase : (k : ℕ) (m : Fragments) → waiting_bytes (erase k m) ≤ waiting_bytes m
unfolding erase
waiting-erase k [] = omega arith
waiting-erase k ((j, l) ∷ m) = ground (arith, waiting-erase k m)

waiting-erase_found :
    (k : ℕ) (m : Fragments) (l : List Data)
    → find k m ≡ some l
    → total_bytes l + waiting_bytes (erase k m) ≡ waiting_bytes m
unfolding find erase
waiting-erase_found k [] l h = absurd (cc)
waiting-erase_found k ((j, x) ∷ m) l h = elim (Bool-cases (j == k)) [
  | inl hit ↦ let it : x ≡ l = cc (rw hit at h) in rw hit (rw it refl)
  | inr miss ↦ let rest = waiting-erase_found k m l (rw miss at h) in rw miss (omega (arith, rest))
]

waiting-emplace :
    (k : ℕ) (l : List Data) (m : Fragments)
    → waiting_bytes (emplace k l m) ≤ total_bytes l + waiting_bytes m
unfolding emplace
waiting-emplace k l [] = omega arith
waiting-emplace k l ((j, x) ∷ m) = ground (arith, waiting-emplace k l m)

waiting-assign :
    (k : ℕ) (d : Data) (l : List Data) (m : Fragments)
    → find k m ≡ some l
    → waiting_bytes (assign k (d ∷ l) m) ≡ length d.bytes + waiting_bytes m
unfolding find assign
waiting-assign k d l [] h = absurd (cc)
waiting-assign k d l ((j, x) ∷ m) h = elim (Bool-cases (j == k)) [
  | inl hit ↦ let it : x ≡ l = cc (rw hit at h) in rw hit (rw it (omega arith))
  | inr miss ↦ let rest = waiting-assign k d l m (rw miss at h) in rw miss (omega (arith, rest))
]

collect-first :
    (index : ℕ) (d : Data) (m : Fragments)
    → find index m ≡ none
    → collect index d m ≡ emplace index (d ∷ []) m
unfolding collect
collect-first index d m h = rw (h, collect)

collect-next :
    (index : ℕ) (d : Data) (l : List Data) (m : Fragments)
    → find index m ≡ some l
    → collect index d m ≡ assign index (d ∷ l) m
unfolding collect
collect-next index d l m h = rw (h, collect)

pub waiting-collect :
    (index : ℕ) (d : Data) (m : Fragments)
    → waiting_bytes (collect index d m) ≤ length d.bytes + waiting_bytes m
waiting-collect index d m = elim (Option-cases (find index m)) [
  | inl absent ↦
      rw (collect-first index d m absent) (omega (arith, waiting-emplace index (d ∷ []) m))
  | inr (l, h) ↦ rw (collect-next index d l m h) (omega (arith, waiting-assign index d l m h))
]

pub waiting-take_out :
    (index : ℕ) (m : Fragments) (l : List Data)
    → find index m ≡ some l
    → total_bytes l + waiting_bytes (take_out index m) ≤ waiting_bytes m
unfolding take_out
waiting-take_out index m l h =
    let m1 = erase index m in
    let m2 = erase ((index + 128) % 256) m1 in
    let m3 = erase ((index + 129) % 256) m2 in
    omega (
      arith,
      waiting-erase_found index m l h,
      waiting-erase ((index + 128) % 256) m1,
      waiting-erase ((index + 129) % 256) m2,
      waiting-erase ((index + 130) % 256) m3,
    )

pub collect-Keyed : (index : ℕ) (d : Data) (m : Fragments) → Keyed 0 m → Keyed 0 (collect index d m)
collect-Keyed index d m k = elim (Option-cases (find index m)) [
  | inl absent ↦
      rw (collect-first index d m absent) (emplace-Keyed index 0 (d ∷ []) m (omega arith) k)
  | inr (l, h) ↦ rw (collect-next index d l m h) (assign-Keyed index 0 (d ∷ l) m k)
]

pub collect-Every :
    (index : ℕ) (d : Data) (m : Fragments)
    → Waits index d
    → Every IsSetOf m
    → Every IsSetOf (collect index d m)
collect-Every index d m waits e = elim (Option-cases (find index m)) [
  | inl absent ↦
      rw (collect-first index d m absent)
        (emplace-Every IsSetOf index (d ∷ []) m (omega arith, (waits, tt)) e)
  | inr (l, h) ↦
      let others = (find-Every IsSetOf index m l e h).1 in
      rw (collect-next index d l m h)
        (assign-Every IsSetOf index (d ∷ l) m (omega arith, (waits, others)) e)
]

pub take_out-Keyed : (index : ℕ) (m : Fragments) → Keyed 0 m → Keyed 0 (take_out index m)
unfolding take_out
take_out-Keyed index m k =
    erase-Keyed _ 0 _ (erase-Keyed _ 0 _ (erase-Keyed _ 0 _ (erase-Keyed index 0 m k)))

pub take_out-Every :
    (index : ℕ) (m : Fragments) → Every IsSetOf m → Every IsSetOf (take_out index m)
unfolding take_out
take_out-Every index m e =
    erase-Every IsSetOf _ _
      (erase-Every IsSetOf _ _ (erase-Every IsSetOf _ _ (erase-Every IsSetOf index m e)))
