-- ===== src/Invariant/Packets.antt =====
-- src/Connection.cpp, `handleData` and `handleFragment`: a packet keeps the connections sound, and
-- the fragments in fragments come to an end.
use lib_tox_tun.Base.{
  ℕ, zero, suc, ◌+◌, ◌<◌, ◌≡◌, ap, ◌∙◌, Option, none, some, List, length, arith, ◌==◌, Option-cases,
  inl, inr, if◌then◌else◌,
}
use lib_tox_tun.Errors.{ok}
use lib_tox_tun.Errors.Ending.{Ends}
use lib_tox_tun.Data.{
  Data, PacketId, connection_request, connection_accept, connection_reject, connection_close,
  connection_reset, ip_proposal, ip_accept, ip_reject, packet_data, fragment, unnamed,
  get_tox_header, is_valid_fragment, get_splitted_data_index, get_fragments_count,
}
use lib_tox_tun.Data.Ending.{
  get_tox_header-Ends, is_valid_fragment-Ends, get_splitted_data_index-Ends,
  get_fragments_count-Ends,
}
use lib_tox_tun.Assembly.{from_fragments}
use lib_tox_tun.Assembly.Size.{from_fragments-shrinks, from_fragments-Ends}
use lib_tox_tun.Assoc.{Keyed, find, find-assign_self}
use lib_tox_tun.Assoc.Every.{Every, find-Every}
use lib_tox_tun.World.{World, Env, Connection}
use lib_tox_tun.World.Exec.{Exec, pure, lift, this, store, ◌>>=◌}
use lib_tox_tun.Incoming.{
  Fragments, collect, take_out, the_set, handle_complete, handle_fragment, dispatch, handle_data_on,
  waiting_bytes, waiting_at, handle_data,
}
use lib_tox_tun.Collecting.{with_fragments}
use lib_tox_tun.Invariant.{
  IsSound, IsValid, IsSetOf, Waits, Fine, Safe, Fine-continue, Fine-noexcept, assign-IsValid,
  Safe-lift, Safe-this, Fine-if,
}
use lib_tox_tun.Invariant.Negotiating.{
  Safe-handle_connection_accepted, Safe-handle_connection_rejected, Safe-handle_connection_closed,
  Safe-handle_connection_reset, Safe-handle_ip_proposal, Safe-handle_ip_accepted,
  Safe-handle_ip_rejected, Safe-send_to_tun,
}
use lib_tox_tun.Invariant.Waiting.{
  waiting-collect, waiting-take_out, collect-Keyed, collect-Every, take_out-Keyed, take_out-Every,
}

with_sets :
    (friend : ℕ) (c : Connection) (m : Fragments)
    → IsSound friend c
    → Keyed 0 m
    → Every IsSetOf m
    → IsSound friend (record c { fragments = m })
with_sets friend c m s keyed sets = record {
  own_key = s.own_key;
  alive = s.alive;
  in_range = s.in_range;
  next_is_byte = s.next_is_byte;
  sets_keyed = keyed;
  sets = sets;
}

-- The bytes that wait at the connection to `friend`.
abbrev waiting_for : ℕ → World → ℕ
waiting_for friend w = waiting_at (find friend w.connections)

-- `again` may be called for a packet that is smaller by what else waits.
abbrev SafeBelow : ℕ → (Data → Exec (Unit {0})) → ℕ → Type 0
SafeBelow friend again most =
    (d : Data) (w : World)
    → IsValid w
    → waiting_for friend w + length d.bytes < most
    → Fine (again d w).0 (again d w).1

the_set-Ends : (o : Option (List Data)) → Ends (the_set o)
the_set-Ends none = tt
the_set-Ends (some l) = tt

the_set-ok : (o : Option (List Data)) (l : List Data) → the_set o ≡ ok l → o ≡ some l
the_set-ok none l h = absurd (cc)
the_set-ok (some x) l h = cc

module _ (env : Env) (again : Data → Exec (Unit {0})) (friend : ℕ) where
  -- The rest of `handleFragment` once the fragment is in its set.
  abbrev collected : ℕ → Data → Fragments → Exec (Unit {0})
  collected index d m = do
    l ← lift (the_set (find index m))
    count ← lift (get_fragments_count d)
    if length l == count then handle_complete env again friend index l else pure tt

  -- `w` is the world in which the set under `index` is complete.
  handle_complete-Fine :
      (index : ℕ) (l : List Data) (c : Connection) (w : World)
      → IsValid w
      → find friend w.connections ≡ some c
      → IsSound friend c
      → find index c.fragments ≡ some l
      → SafeBelow friend again (waiting_bytes c.fragments)
      → Fine
          (handle_complete env again friend index l w).0
          (handle_complete env again friend index l w).1
  unfolding handle_complete this store
  handle_complete-Fine index l c w v h s found below =
      let m : Fragments = take_out index c.fragments in
      let t : World = with_fragments friend c m w in
      let there = find-assign_self friend (record c { fragments = m }) c w.connections h in
      let set : IsSetOf index l = find-Every IsSetOf index c.fragments l s.sets found in
      let v' : IsValid t =
        assign-IsValid friend (record c { fragments = m }) w v
          (with_sets friend c m s (take_out-Keyed index c.fragments s.sets_keyed)
            (take_out-Every index c.fragments s.sets)) in
      rw h (
        Fine-continue (from_fragments l) _ t
          (Safe-lift (from_fragments l) (from_fragments-Ends l) t v')
          (λ whole joins v''.
            Fine-continue (again whole t).0 _ (again whole t).1
              (below whole t v' (
                rw there (
                  omega (
                    arith,
                    from_fragments-shrinks l whole set.0 joins,
                    waiting-take_out index c.fragments l found,
                  ))))
              (λ done e v3. Safe-this friend _ (λ c' u v4 h' s'. v4) (again whole t).1 v3)))

  -- With the fragment in its set, which may now be complete.
  collected-Fine :
      (index : ℕ) (d : Data) (c : Connection) (w : World)
      → IsValid w
      → find friend w.connections ≡ some c
      → IsSound friend c
      → Waits index d
      → SafeBelow friend again (waiting_bytes c.fragments + length d.bytes)
      → Fine
          (collected index d
            (collect index d c.fragments)
            (with_fragments friend c (collect index d c.fragments) w)).0
          (collected index d
            (collect index d c.fragments)
            (with_fragments friend c (collect index d c.fragments) w)).1
  collected-Fine index d c w v h s waits below =
      let m : Fragments = collect index d c.fragments in
      let c' : Connection = record c { fragments = m } in
      let u : World = with_fragments friend c m w in
      let s' : IsSound friend c' =
        with_sets friend c m s (collect-Keyed index d c.fragments s.sets_keyed)
          (collect-Every index d c.fragments waits s.sets) in
      let v' : IsValid u = assign-IsValid friend c' w v s' in
      Fine-continue (the_set (find index m)) _ u (Safe-lift _ (the_set-Ends (find index m)) u v')
        (λ l found v1.
          Fine-continue (get_fragments_count d) _ u (Safe-lift _ (get_fragments_count-Ends d) u v')
            (λ count e v2.
              Fine-if (length l == count) _ _ u
                (λ complete.
                  handle_complete-Fine index l c' u v'
                    (find-assign_self friend c' c w.connections h) s'
                    (the_set-ok (find index m) l found)
                    (λ whole t vt less.
                      below whole t vt (omega (arith, less, waiting-collect index d c.fragments))))
                v'))

  handle_fragment-Fine :
      (d : Data) (w : World)
      → IsValid w
      → SafeBelow friend again (waiting_for friend w + length d.bytes)
      → Fine (handle_fragment env again friend d w).0 (handle_fragment env again friend d w).1
  unfolding handle_fragment this store
  handle_fragment-Fine d w v below = Fine-noexcept _ _ (
      Fine-continue (is_valid_fragment d) _ w (Safe-lift _ (is_valid_fragment-Ends d) w v)
        (λ valid e v1.
          Fine-if valid _ _ w
            (λ is_valid.
              Fine-continue (get_splitted_data_index d) _ w
                (Safe-lift _ (get_splitted_data_index-Ends d) w v)
                (λ index in_set v2. elim (Option-cases (find friend w.connections)) [
                  | inl absent ↦ rw (absent, this) tt
                  | inr (c, h) ↦ rw h (
                      collected-Fine index d c w v h
                        (find-Every IsSound friend w.connections c v.1 h)
                        (record { valid = e ∙ ap ok is_valid; in_set = in_set }) (rw h at below))
                ]))
            v))

module _ (env : Env) (room : 2 < env.max_packet) where
  dispatch-Fine :
      (again : Data → Exec (Unit {0})) (id : PacketId) (friend : ℕ) (d : Data) (w : World)
      → IsValid w
      → SafeBelow friend again (waiting_for friend w + length d.bytes)
      → Fine (dispatch env again id friend d w).0 (dispatch env again id friend d w).1
  unfolding dispatch
  dispatch-Fine again connection_request friend d w v below = v
  dispatch-Fine again connection_accept friend d w v below =
      Safe-handle_connection_accepted env room friend w v
  dispatch-Fine again connection_reject friend d w v below =
      Safe-handle_connection_rejected env room friend w v
  dispatch-Fine again connection_close friend d w v below =
      Safe-handle_connection_closed env room friend w v
  dispatch-Fine again connection_reset friend d w v below =
      Safe-handle_connection_reset env room friend w v
  dispatch-Fine again ip_proposal friend d w v below = Safe-handle_ip_proposal env room friend d w v
  dispatch-Fine again ip_accept friend d w v below = Safe-handle_ip_accepted env room friend w v
  dispatch-Fine again ip_reject friend d w v below = Safe-handle_ip_rejected env room friend w v
  dispatch-Fine again packet_data friend d w v below = Safe-send_to_tun env room friend d w v
  dispatch-Fine again fragment friend d w v below =
      handle_fragment-Fine env again friend d w v below
  dispatch-Fine again (unnamed b) friend d w v below = v

  -- Fuel above the bytes of the packet and of the fragments that wait is enough.
  pub handle_data_on-Fine :
      (fuel friend : ℕ) (d : Data) (w : World)
      → IsValid w
      → waiting_for friend w + length d.bytes < fuel
      → Fine (handle_data_on env fuel friend d w).0 (handle_data_on env fuel friend d w).1
  unfolding handle_data_on
  handle_data_on-Fine zero friend d w v enough = absurd (omega arith)
  handle_data_on-Fine (suc fuel) friend d w v enough = Fine-noexcept _ _ (
      Fine-continue (get_tox_header d) _ w (Safe-lift _ (get_tox_header-Ends d) w v) (λ id e v'.
        dispatch-Fine (handle_data_on env fuel friend) id friend d w v
          (λ whole t vt less. handle_data_on-Fine fuel friend whole t vt (omega (arith, less)))))

  pub Safe-handle_data : (friend : ℕ) (d : Data) → Safe (handle_data env friend d)
  unfolding handle_data
  Safe-handle_data friend d w v =
      handle_data_on-Fine (suc (waiting_for friend w + length d.bytes)) friend d w v (omega arith)
