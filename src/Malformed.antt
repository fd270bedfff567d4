-- ===== src/Malformed.antt =====
-- src/Connection.cpp, `handleFragment`: a set of fragments that no peer of this library sends.
use lib_tox_tun.Base.{
  ℕ, ◌≡◌, refl, true, none, some, List, [], ◌∷◌, length, ◌==◌, Bool-cases, inl, inr, eq_self,
}
use lib_tox_tun.Errors.{Fault, terminated, out_of_range, err, at_boundary, error}
use lib_tox_tun.Data.{
  Data, get_tox_header, is_valid_fragment, get_splitted_data_index, get_fragments_count, new,
  to_byte, at, copy_at,
}
use lib_tox_tun.Assembly.{from_fragments}
use lib_tox_tun.Assoc.{Keyed, find, find-emplace, find-assign_self}
use lib_tox_tun.World.{World, Env, Connection}
use lib_tox_tun.World.Exec.{this, store}
use lib_tox_tun.Incoming.{collect, handle_complete, handle_data}
use lib_tox_tun.Collecting.{IsFragment, handle_data-fragment}

-- A fragment that completes its set ends the process if `fromFragments` throws on the set: the
-- exception leaves a `noexcept` function.
pub bad_set :
    (env : Env) (friend index count : ℕ) (d : Data) (c : Connection) (l : List Data) (e : Fault)
    (w : World)
    → IsFragment index count d
    → find friend w.connections ≡ some c
    → find index (collect index d c.fragments) ≡ some l
    → length l ≡ count
    → from_fragments l ≡ err e
    → at_boundary e ≡ terminated
    → (handle_data env friend d w).0 ≡ err terminated
unfolding handle_complete this store
bad_set env friend index count d c l e w f h g complete bad ends =
    let full : (length l == count) ≡ true = rw complete (eq_self count) in
    let kept =
      find-assign_self friend (record c { fragments = collect index d c.fragments }) c w.connections
        h in
    rw (handle_data-fragment env friend index count d c l w f h g, full) (rw (kept, bad, ends))

-- The four bytes 201, index, number, 1.
abbrev pub empty_fragment : ℕ → ℕ → Data
empty_fragment index number = record {
  bytes = 201 ∷ index ∷ number ∷ 1 ∷ [];
  tox_header_set = true;
}

empty_fragment-IsFragment : (index number : ℕ) → IsFragment index 1 (empty_fragment index number)
unfolding get_tox_header is_valid_fragment get_splitted_data_index get_fragments_count to_byte
empty_fragment-IsFragment index number = record {
  named = refl;
  valid = refl;
  in_set = refl;
  of_parts = refl;
}

from_fragments-empty :
    (index number : ℕ)
    → (e : Fault) × (from_fragments (empty_fragment index number ∷ []) ≡ err e)
      × (at_boundary e ≡ terminated)
unfolding from_fragments at copy_at new
from_fragments-empty index number = elim (Bool-cases (0 == number)) [
  | inl first ↦ (out_of_range, rw first, refl)
  | inr later ↦ (error "Fragmented package corrupted", rw later, refl)
]

-- One packet of four bytes, a fragment without payload that says it is the only one, ends the
-- process of the receiver. The friend has a connection, in any state, and no set waits under the
-- index of the packet.
pub empty_fragment_crash :
    (env : Env) (friend index number : ℕ) (c : Connection) (w : World)
    → find friend w.connections ≡ some c
    → Keyed 0 c.fragments
    → find index c.fragments ≡ none
    → (handle_data env friend (empty_fragment index number) w).0 ≡ err terminated
unfolding collect
empty_fragment_crash env friend index number c w h keyed free =
    let (e, bad, ends) = from_fragments-empty index number in
    bad_set env friend index 1 (empty_fragment index number) c (empty_fragment index number ∷ []) e
      w (empty_fragment-IsFragment index number) h
      (rw (free, collect)
        (rw (
          find-emplace index index 0 (empty_fragment index number ∷ []) c.fragments keyed free,
          eq_self index,
        )))
      refl bad ends
