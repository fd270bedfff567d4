-- ===== src/Collecting.antt =====
-- src/Connection.cpp, `handleFragment`: what one fragment does to its set.
use lib_tox_tun.Base.{ℕ, ◌+◌, ◌≡◌, true, some, List, length, ◌==◌, if◌then◌else◌}
use lib_tox_tun.Errors.{ok}
use lib_tox_tun.Data.{
  Data, fragment, get_tox_header, is_valid_fragment, get_splitted_data_index, get_fragments_count,
}
use lib_tox_tun.Assoc.{find, assign}
use lib_tox_tun.World.{World, Env, Connection}
use lib_tox_tun.World.Exec.{pure, noexcept, this, store}
use lib_tox_tun.Incoming.{
  Fragments, collect, handle_complete, handle_fragment, dispatch, handle_data_on, waiting_at,
  handle_data,
}

-- A packet that `handleFragment` takes for a fragment of the set under `index` with `count` parts.
pub record IsFragment (index count : ℕ) (d : Data) : Type 0 where
  pub named : get_tox_header d ≡ ok fragment
  pub valid : is_valid_fragment d ≡ ok true
  pub in_set : get_splitted_data_index d ≡ ok index
  pub of_parts : get_fragments_count d ≡ ok count

-- The world with other fragments in the connection `c` to `friend`.
abbrev pub with_fragments : ℕ → Connection → Fragments → World → World
with_fragments friend c m w = record w {
  connections = assign friend (record c { fragments = m }) w.connections;
}

module _ (env : Env) where
  -- A fragment is added to its set; nothing else happens unless the set is then complete.
  pub handle_data-fragment :
      (friend index count : ℕ) (d : Data) (c : Connection) (l : List Data) (w : World)
      → IsFragment index count d
      → find friend w.connections ≡ some c
      → find index (collect index d c.fragments) ≡ some l
      → handle_data env friend d w
        ≡ noexcept
            (noexcept (
              if length l == count
              then handle_complete env
                  (handle_data_on env
                    (waiting_at (find friend w.connections) + length d.bytes)
                    friend)
                  friend
                  index
                  l
              else pure tt))
            (with_fragments friend c (collect index d c.fragments) w)
  unfolding handle_data handle_data_on dispatch handle_fragment this store
  handle_data-fragment friend index count d c l w f h g =
      rw (f.named, handle_data_on) (rw (dispatch, f.valid, f.in_set, h, g, f.of_parts))
