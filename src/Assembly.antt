-- ===== src/Assembly.antt =====
-- src/Data.cpp, `Data::fromFragments`.
pub mod Sort
pub mod Laws
pub mod Size
use lib_tox_tun.Base.{
  ℕ, suc, ◌+◌, ◌%◌, List, [], ◌∷◌, Bool, true, false, not, ◌||◌, ◌&&◌, length, get_or, drop, ltb,
  leb, ◌==◌, if◌then◌else◌,
}
use lib_tox_tun.Errors.{Result, ok, err, out_of_range, error, guard, ◌>>=◌, ◌>>◌}
use lib_tox_tun.Data.{Data, add_size, sub_size, new, at, copy_at}

-- All bytes of the fragments, their headers included.
abbrev pub total_bytes : List Data → ℕ
total_bytes [] = 0
total_bytes (d ∷ l) = length d.bytes + total_bytes l

-- `f.data->size() - 4`
abbrev payload_size : Data → ℕ
payload_size f = sub_size (length f.bytes) 4

total_size : ℕ → List Data → ℕ
total_size len [] = len
total_size len (f ∷ fs) = total_size (add_size len (payload_size f)) fs

abbrev pub fragment_number : Data → ℕ
fragment_number f = get_or f.bytes 2 0

insert : Data → List Data → List Data
insert f [] = f ∷ []
insert f (g ∷ gs) =
    if ltb (fragment_number g) (fragment_number f) then g ∷ insert f gs else f ∷ g ∷ gs

-- `std::list::sort`, which is stable.
pub sort : List Data → List Data
unfolding insert
sort [] = []
sort (f ∷ fs) = insert f (sort fs)

has_short : List Data → Bool
has_short [] = false
has_short (f ∷ fs) = leb (length f.bytes) 2 || has_short fs

-- Every element of a list of two or more is compared, and `at(2)` throws on a short one.
sort_fragments : List Data → Result (List Data)
unfolding sort has_short
sort_fragments fs = do guard (not (has_short fs && leb 2 (length fs))) out_of_range; ok (sort fs)

copy_fragments : ℕ → ℕ → List ℕ → List Data → Result (List ℕ)
unfolding at copy_at
copy_fragments i pos bytes [] = ok bytes
copy_fragments i pos bytes (f ∷ fs) = do
  number ← at f.bytes 2
  guard (i == number) (error "Fragmented package corrupted")
  guard (ltb 4 (length f.bytes)) out_of_range
  bytes' ← copy_at bytes pos (drop 4 f.bytes)
  copy_fragments (i + 1) (add_size pos (payload_size f)) bytes' fs

unfoldable pub from_fragments : List Data → Result Data
unfolding total_size sort_fragments copy_fragments new
from_fragments fragments = do
  let d = new (total_size 0 fragments)
  sorted ← sort_fragments fragments
  bytes ← copy_fragments 0 0 d.bytes sorted
  ok (record { bytes = bytes; tox_header_set = true })
