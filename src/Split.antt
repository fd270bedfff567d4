-- ===== src/Split.antt =====
-- src/Data.cpp, `Data::getSplitted`. `max` is TOX_MAX_CUSTOM_PACKET_SIZE of <tox/tox.h>.
mod Loop
pub mod Laws
use lib_tox_tun.Base.{
  ℕ, zero, suc, ◌+◌, ◌-◌, ◌%◌, List, [], ◌∷◌, true, false, not, length, take, drop, ltb,
  if◌then◌else◌,
}
use lib_tox_tun.Errors.{Result, ok, err, diverged, out_of_range, error, guard, ◌>>=◌, ◌>>◌}
use lib_tox_tun.Data.{Data, add_size, new, set_tox_header, fragment, put_at, copy_at}

module _ (max : ℕ) (d : Data) (index : ℕ) where
  abbrev to_copy : ℕ → ℕ
  to_copy pos = if ltb (length d.bytes - pos) (max - 4) then length d.bytes - pos else max - 4

  -- The body of the loop: the fragment of `n` bytes at `pos`, its count not yet written.
  cut : ℕ → ℕ → ℕ → Result Data
  cut pos fragment_index n = do
    guard (not (ltb (add_size n 4) n)) (error "Integer overflow in getSplitted()")
    tmp ← set_tox_header (new (add_size n 4)) fragment
    v ← put_at tmp.bytes 1 index
    w ← put_at v 2 (fragment_index % 256)
    guard (ltb pos (length d.bytes)) out_of_range
    bytes ← copy_at w 4 (take n (drop pos d.bytes))
    ok (record tmp { bytes = bytes })

  -- `while (pos < data->size())` on fuel, with the final `fragmentIndex`.
  pub split_loop : ℕ → ℕ → ℕ → List Data → Result (List Data × ℕ)
  split_loop zero pos fragment_index data_list = err diverged
  split_loop (suc fuel) pos fragment_index data_list = elim (ltb pos (length d.bytes)) [
    | true ↦ cut pos fragment_index (to_copy pos) >>= λ tmp.
        split_loop fuel (add_size pos (to_copy pos)) (add_size fragment_index 1) (tmp ∷ data_list)
    | false ↦ ok (data_list, fragment_index)
  ]

-- `for (auto &f : dataList) f.data->at(3) = fragmentIndex;`
set_counts : ℕ → List Data → Result (List Data)
set_counts n [] = ok []
set_counts n (f ∷ fs) = do
  bytes ← put_at f.bytes 3 (n % 256)
  rest ← set_counts n fs
  ok (record f { bytes = bytes } ∷ rest)

-- The loop moves `pos` by at least one if `4 < max`, so its rounds are within the fuel.
unfoldable pub get_splitted : ℕ → Data → ℕ → Result (List Data)
unfolding split_loop cut set_counts new set_tox_header put_at copy_at
get_splitted max d index = do
  (data_list, n) ← split_loop max d index (suc (length d.bytes)) 0 0 []
  set_counts n data_list
