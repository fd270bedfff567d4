-- ===== src/RoundTrip.antt =====
-- src/Data.cpp, `getSplitted` and `fromFragments` together: a packet survives the wire, whatever
-- the order in which its fragments arrive.
use mathlib.Core.List.{Perm, reverse_perm}
use mathlib.Core.List.Perm
use lib_tox_tun.Base.{
  ℕ, suc, ◌+◌, ◌-◌, ◌*◌, ◌≤◌, ◌<◌, ◌≡◌, refl, ap, true, List, [], ◌∷◌, arith, length, reverse,
  length-reverse, All, All-reverse,
}
use lib_tox_tun.Errors.{ok}
use lib_tox_tun.Data.{
  Data, lossy, size_mod, fragment, get_tox_header, get_send_tox, get_tox_data_len,
  is_valid_fragment, get_splitted_data_index, get_fragments_count,
}
use lib_tox_tun.Pieces.{piece, pieces, Fit, joined}
use lib_tox_tun.Split.{get_splitted}
use lib_tox_tun.Split.Laws.{get_splitted-pieces}
use lib_tox_tun.Assembly.{from_fragments}
use lib_tox_tun.Assembly.Laws.{from_fragments-pieces}

-- The conditions under which a packet is cut into at most 255 fragments.
abbrev pub CanSplit : ℕ → Data → Type 0
CanSplit max d =
    (4 < max)
    × (0 < length d.bytes)
    × (length d.bytes ≤ 255 * (max - 4))
    × (length d.bytes + 4 < size_mod)

few_pieces : (l n m : ℕ) → 0 < m → l * m < n + m → n ≤ 255 * m → l ≤ 255
few_pieces l n m h k b = grind arith

joined-pos : (most : ℕ) (cs : List (List ℕ)) → 0 < length (joined cs) → 0 < length cs
joined-pos most [] h = h
joined-pos most (c ∷ cs) h = omega arith

-- A fragment as `sendToTox` hands it to tox and as `handleFragment` reads it.
abbrev pub OnWire : ℕ → ℕ → ℕ → Data → Type 0
OnWire max index count f =
    (get_tox_data_len f ≤ max)
    × (get_send_tox f ≡ ok lossy)
    × (get_tox_header f ≡ ok fragment)
    × (is_valid_fragment f ≡ ok true)
    × (get_splitted_data_index f ≡ ok index)
    × (get_fragments_count f ≡ ok count)

piece-OnWire :
    (max index count k : ℕ) (c : List ℕ)
    → 4 < max
    → length c ≤ max - 4
    → count ≤ 255
    → OnWire max index count (piece index count k c)
unfolding get_tox_data_len get_tox_header get_send_tox is_valid_fragment get_splitted_data_index
    get_fragments_count
piece-OnWire max index count k c big fits few =
    (omega arith, ground arith, refl, ground arith, ground arith, ground arith)

pieces-OnWire :
    (max index count k : ℕ) (cs : List (List ℕ))
    → 4 < max
    → Fit (max - 4) cs
    → count ≤ 255
    → All (OnWire max index count) (pieces index count k cs)
pieces-OnWire max index count k [] big fits few = tt
pieces-OnWire max index count k (c ∷ cs) big fits few = (
  piece-OnWire max index count k c big fits.1 few,
  pieces-OnWire max index count (k + 1) cs big fits.2 few,
)

length-pieces :
    (index count k : ℕ) (cs : List (List ℕ)) → length (pieces index count k cs) ≡ length cs
length-pieces index count k [] = refl
length-pieces index count k (c ∷ cs) = ap suc (length-pieces index count (k + 1) cs)

-- A packet of at most 255 times the payload of a fragment is cut without failure into at least one, and each
-- fragment fits a tox packet, is sent lossy, is valid for the receiver, and carries the index of
-- the set and the number of its fragments.
pub get_splitted-OnWire :
    (max : ℕ) (d : Data) (index : ℕ)
    → CanSplit max d
    → (sent : List Data) × (get_splitted max d index ≡ ok sent)
      × (0 < length sent)
      × All (OnWire max index (length sent)) sent
get_splitted-OnWire max d index (big, some_bytes, small, fits) =
    finish (get_splitted-pieces max d index big fits)
  where
    finish :
        (cs : List (List ℕ)) × (get_splitted max d index
            ≡ ok (reverse (pieces index (length cs) 0 cs)))
          × (joined cs ≡ d.bytes)
          × Fit (max - 4) cs
          × (length cs * (max - 4) < length d.bytes + (max - 4))
        → (sent : List Data) × (get_splitted max d index ≡ ok sent)
          × (0 < length sent)
          × All (OnWire max index (length sent)) sent
    finish (cs, s, j, fit, few) = (
      reverse (pieces index (length cs) 0 cs),
      s,
      let filled = joined-pos (max - 4) cs (rw j some_bytes) in
          rw (length-reverse (pieces index (length cs) 0 cs), length-pieces index (length cs) 0 cs)
            filled,
      let at_most : length cs ≤ 255 =
            few_pieces (length cs) (length d.bytes) (max - 4) (omega arith) few small in
          rw (length-reverse (pieces index (length cs) 0 cs), length-pieces index (length cs) 0 cs)
            (All-reverse (OnWire max index (length cs)) (pieces index (length cs) 0 cs)
              (pieces-OnWire max index (length cs) 0 cs big fit at_most)),
    )

-- Whatever the order in which all the fragments of a packet arrive, `fromFragments` puts them
-- together to the packet, its header marked as set.
pub from_fragments-get_splitted :
    (max : ℕ) (d : Data) (index : ℕ) (sent arrived : List Data)
    → CanSplit max d
    → get_splitted max d index ≡ ok sent
    → Perm sent arrived
    → from_fragments arrived ≡ ok (record d { tox_header_set = true })
from_fragments-get_splitted max d index sent arrived (big, some_bytes, small, fits) e p =
    finish (get_splitted-pieces max d index big fits)
  where
    finish :
        (cs : List (List ℕ)) × (get_splitted max d index
            ≡ ok (reverse (pieces index (length cs) 0 cs)))
          × (joined cs ≡ d.bytes)
          × Fit (max - 4) cs
          × (length cs * (max - 4) < length d.bytes + (max - 4))
        → from_fragments arrived ≡ ok (record d { tox_header_set = true })
    finish (cs, s, j, fit, few) =
        rw
          (from_fragments-pieces index (max - 4) cs arrived fit
            (joined-pos (max - 4) cs (omega (arith, measured))) (omega (arith, at_most))
            (omega (arith, measured)) rearranged)
          (rw j)
      where
        measured : length (joined cs) ≡ length d.bytes
        measured = ap length j

        at_most : length cs ≤ 255
        at_most = few_pieces (length cs) (length d.bytes) (max - 4) (omega arith) few small

        sent_is : sent ≡ reverse (pieces index (length cs) 0 cs)
        sent_is = cc (s, e)

        rearranged : Perm (pieces index (length cs) 0 cs) arrived
        rearranged = Perm.trans (Perm.symm (reverse_perm _)) (rw sent_is at p)
