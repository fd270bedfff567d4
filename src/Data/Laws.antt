-- ===== src/Data/Laws.antt =====
-- The accessors of a vector on the inputs where they neither throw nor run out of bounds.
use mathlib.Core.List.{append_assoc}
use lib_tox_tun.Base.{
  ℕ, zero, suc, ◌+◌, ◌-◌, ◌≤◌, ◌<◌, ◌≡◌, refl, Bool, true, false, List, [], ◌∷◌, ◌++◌, arith,
  length, set, take, drop, replicate, get_or, ltb, leb, length-append, length-replicate,
  take-append, drop-append, drop-drop, drop-replicate,
}
use lib_tox_tun.Errors.{ok, ◌>>=◌}
use lib_tox_tun.Data.{PacketId, to_byte, new, set_tox_header, at, put_at, copy_at}

pub at_inside : (v : List ℕ) (i : ℕ) → i < length v → at v i ≡ ok (get_or v i 0)
unfolding at
at_inside [] i h = absurd (omega arith)
at_inside (b ∷ v) zero h = refl
at_inside (b ∷ v) (suc i) h = at_inside v i (omega arith)

pub put_at_inside : (v : List ℕ) (i b : ℕ) → i < length v → put_at v i b ≡ ok (set v i b)
unfolding put_at
put_at_inside v i b h = ground arith

pub new-pos : (n : ℕ) → 0 < n → new n ≡ record { bytes = replicate n 0; tox_header_set = false }
unfolding new
new-pos n h = ground arith

pub set_tox_header-cons :
    (b : ℕ) (v : List ℕ) (named : Bool) (id : PacketId)
    → set_tox_header (record { bytes = b ∷ v; tox_header_set = named }) id
      ≡ ok (record { bytes = to_byte id ∷ v; tox_header_set = true })
unfolding set_tox_header
set_tox_header-cons b v named id = ground arith

-- A copy onto the zeros behind `pre`.
pub copy_onto_zeros :
    (pre src : List ℕ) (r : ℕ)
    → 0 < length src
    → length src ≤ r
    → copy_at (pre ++ replicate r 0) (length pre) src
      ≡ ok ((pre ++ src) ++ replicate (r - length src) 0)
unfolding copy_at
copy_onto_zeros pre src r h k =
    rw (inside, fits, ◌>>=◌, taken, dropped)
      (rw (append_assoc pre src (replicate (r - length src) 0)))
  where
    zeros : List ℕ
    zeros = replicate r 0

    size : length (pre ++ zeros) ≡ length pre + r
    size = omega (arith, length-append pre zeros, length-replicate r (zero))

    inside : ltb (length pre) (length (pre ++ zeros)) ≡ true
    inside = ground (arith, size)

    fits : leb (length pre + length src) (length (pre ++ zeros)) ≡ true
    fits = ground (arith, size)

    taken : take (length pre) (pre ++ zeros) ≡ pre
    taken = take-append (length pre) pre zeros refl

    dropped : drop (length pre + length src) (pre ++ zeros) ≡ replicate (r - length src) 0
    dropped =
        rw (← drop-drop (length src) (length pre) (pre ++ zeros))
          (rw (drop-append (length pre) pre zeros refl) (drop-replicate (length src) r 0))
