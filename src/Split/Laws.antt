-- ===== src/Split/Laws.antt =====
-- What `getSplitted` returns: pieces that fit a packet and join to the data.
use mathlib.Core.List.{reverse_aux}
use lib_tox_tun.Base.{
  ℕ, suc, ◌+◌, ◌-◌, ◌*◌, ◌%◌, ◌<◌, ◌≡◌, refl, ap, List, [], ◌∷◌, map, reverse, arith, length, set,
}
use lib_tox_tun.Errors.{ok, ◌>>=◌}
use lib_tox_tun.Data.{Data, size_mod}
use lib_tox_tun.Data.Laws.{put_at_inside}
use lib_tox_tun.Pieces.{pieces, Fit, joined}
use lib_tox_tun.Split.{split_loop, set_counts, get_splitted}
use lib_tox_tun.Split.Loop.{Splits, split_loop-Splits}

-- Every list has room for a byte at index 3.
abbrev Long : List Data → Type 0
Long [] = Unit {0}
Long (f ∷ fs) = (3 < length f.bytes) × Long fs

abbrev counted : ℕ → Data → Data
counted n f = record f { bytes = set f.bytes 3 (n % 256) }

set_counts-Long : (n : ℕ) (fs : List Data) → Long fs → set_counts n fs ≡ ok (map (counted n) fs)
unfolding set_counts
set_counts-Long n [] h = refl
set_counts-Long n (f ∷ fs) h =
    rw (put_at_inside f.bytes 3 (n % 256) h.0, ◌>>=◌, set_counts-Long n fs h.1)

Long-pieces :
    (index count k : ℕ) (cs : List (List ℕ)) (fs : List Data)
    → Long fs
    → Long (reverse_aux (pieces index count k cs) fs)
Long-pieces index count k [] fs h = h
Long-pieces index count k (c ∷ cs) fs h = Long-pieces index count (k + 1) cs _ (omega arith, h)

map-counted-pieces :
    (index n k : ℕ) (cs : List (List ℕ)) (fs : List Data)
    → map (counted n) (reverse_aux (pieces index 0 k cs) fs)
      ≡ reverse_aux (pieces index n k cs) (map (counted n) fs)
map-counted-pieces index n k [] fs = refl
map-counted-pieces index n k (c ∷ cs) fs = map-counted-pieces index n (k + 1) cs _

-- The data is cut into pieces of at most `max - 4` bytes that join to it, the last one first in the
-- list, and no more pieces than needed.
pub get_splitted-pieces :
    (max : ℕ) (d : Data) (index : ℕ)
    → 4 < max
    → length d.bytes + 4 < size_mod
    → (cs : List (List ℕ)) × (get_splitted max d index
        ≡ ok (reverse (pieces index (length cs) 0 cs)))
      × (joined cs ≡ d.bytes)
      × Fit (max - 4) cs
      × (length cs * (max - 4) < length d.bytes + (max - 4))
unfolding get_splitted
get_splitted-pieces max d index big small = finish (
    split_loop-Splits max d index (suc (length d.bytes)) 0 0 [] big small (omega arith)
      (omega arith) (omega arith))
  where
    finish :
        Splits max d index 0 0 [] (split_loop max d index (suc (length d.bytes)) 0 0 [])
        → (cs : List (List ℕ)) × (get_splitted max d index
            ≡ ok (reverse (pieces index (length cs) 0 cs)))
          × (joined cs ≡ d.bytes)
          × Fit (max - 4) cs
          × (length cs * (max - 4) < length d.bytes + (max - 4))
    finish (cs, e, j, fit, few) = (
      cs,
      let count : 0 + length cs ≡ length cs = omega arith in
          rw (e, ◌>>=◌, count, set_counts-Long (length cs) _ (Long-pieces index 0 0 cs [] tt))
            (ap ok (map-counted-pieces index (length cs) 0 cs [])),
      j,
      fit,
      omega arith,
    )
