-- ===== src/Incoming.antt =====
-- src/Connection.cpp: `handleFragment`, `handleData` and `iterate`.
use lib_tox_tun.Base.{
  ℕ, zero, suc, ◌+◌, ◌%◌, true, false, Option, none, some, List, [], ◌∷◌, length, ◌==◌,
  if◌then◌else◌,
}
use lib_tox_tun.Errors.{out_of_range, diverged, Result, ok, err}
use lib_tox_tun.Data.{
  Data, PacketId, connection_request, connection_accept, connection_reject, connection_close,
  connection_reset, ip_proposal, ip_accept, ip_reject, packet_data, fragment, unnamed,
  get_tox_header, is_valid_fragment, get_splitted_data_index, get_fragments_count,
}
use lib_tox_tun.Tun.{from_backend, get_data}
use lib_tox_tun.Assembly.{total_bytes, from_fragments}
use lib_tox_tun.Assoc.{find, erase, emplace, assign}
use lib_tox_tun.World.{Env, Connection, connected}
use lib_tox_tun.World.Exec.{
  Exec, pure, raise, lift, attempt, to_result, try_catch, noexcept, tick, this, store, ◌>>=◌, ◌>>◌,
}
use lib_tox_tun.Connection.{send_to_tox}
use lib_tox_tun.Handlers.{
  same_state, handle_connection_accepted, handle_connection_rejected, handle_connection_closed,
  handle_connection_reset, handle_ip_proposal, handle_ip_accepted, handle_ip_rejected, send_to_tun,
}

abbrev pub Fragments : Type 0
Fragments = List (ℕ × List Data)

-- The new fragment goes to the front of its set, or starts one.
unfoldable pub collect : ℕ → Data → Fragments → Fragments
collect index d m = elim (find index m) [
  | none ↦ emplace index (d ∷ []) m
  | some l ↦ assign index (d ∷ l) m
]

-- `fragments.at(index)`
abbrev pub the_set : Option (List Data) → Result (List Data)
the_set none = err out_of_range
the_set (some l) = ok l

-- A complete set is taken out, and the three sets from 128 indices on are dropped.
unfoldable pub take_out : ℕ → Fragments → Fragments
take_out index m =
    erase ((index + 130) % 256)
      (erase ((index + 129) % 256) (erase ((index + 128) % 256) (erase index m)))

module _ (env : Env) where
  -- `again` is `handleData`.
  unfoldable pub handle_complete : (Data → Exec (Unit {0})) → ℕ → ℕ → List Data → Exec (Unit {0})
  handle_complete again friend index l = do
    c ← this friend
    store friend (record c { fragments = take_out index c.fragments })
    whole ← lift (from_fragments l)
    again whole
    -- `connectedFriend` and `fragments.size()` are read for the log.
    c ← this friend
    pure tt

  unfoldable pub handle_fragment : (Data → Exec (Unit {0})) → ℕ → Data → Exec (Unit {0})
  handle_fragment again friend d = noexcept (do
    valid ← lift (is_valid_fragment d)
    if valid
        then (do
          index ← lift (get_splitted_data_index d)
          c ← this friend
          store friend (record c { fragments = collect index d c.fragments })
          l ← lift (the_set (find index (collect index d c.fragments)))
          count ← lift (get_fragments_count d)
          if length l == count then handle_complete again friend index l else pure tt)
        else pure tt)

  unfoldable pub dispatch : (Data → Exec (Unit {0})) → PacketId → ℕ → Data → Exec (Unit {0})
  dispatch again connection_request friend d = pure tt
  dispatch again connection_accept friend d = handle_connection_accepted env friend
  dispatch again connection_reject friend d = handle_connection_rejected env friend
  dispatch again connection_close friend d = handle_connection_closed env friend
  dispatch again connection_reset friend d = handle_connection_reset env friend
  dispatch again ip_proposal friend d = handle_ip_proposal env friend d
  dispatch again ip_accept friend d = handle_ip_accepted env friend
  dispatch again ip_reject friend d = handle_ip_rejected env friend
  dispatch again packet_data friend d = send_to_tun env friend d
  dispatch again fragment friend d = handle_fragment again friend d
  dispatch again (unnamed b) friend d = pure tt

  -- `handleData` on fuel for the fragments in fragments.
  unfoldable pub handle_data_on : ℕ → ℕ → Data → Exec (Unit {0})
  handle_data_on zero friend d = raise diverged
  handle_data_on (suc fuel) friend d =
      noexcept (do id ← lift (get_tox_header d); dispatch (handle_data_on fuel friend) id friend d)

-- Each fragment gives up four bytes when its set is put together, so the bytes that wait and the
-- bytes of the packet bound the depth.
abbrev pub waiting_bytes : Fragments → ℕ
waiting_bytes [] = 0
waiting_bytes ((index, l) ∷ m) = total_bytes l + waiting_bytes m

abbrev pub waiting_at : Option Connection → ℕ
waiting_at none = 0
waiting_at (some c) = waiting_bytes c.fragments

module _ (env : Env) where
  -- Connection::handleData
  unfoldable pub handle_data : ℕ → Data → Exec (Unit {0})
  handle_data friend d w =
      handle_data_on env (suc (waiting_at (find friend w.connections) + length d.bytes)) friend d w

  -- `tun.getData()`
  unfoldable pub next_frame : ℕ → Exec Data
  next_frame friend = do
    c ← this friend
    now ← tick
    lift (get_data c.tox_udp_port (from_backend (to_result (env.read_tun now))))

  -- The loop of `iterate` on fuel: it ends when nothing is pending or the time is over.
  unfoldable pub iterate_on : ℕ → ℕ → ℕ → Exec (Unit {0})
  iterate_on zero friend time = raise diverged
  iterate_on (suc fuel) friend time = do
    c ← this friend
    elim (same_state c.state connected) [
      | false ↦ pure tt
      | true ↦ do
        asking ← tick
        pending ← attempt (env.data_pending asking)
        elim pending [
          | false ↦ pure tt
          | true ↦ do
            now ← tick
            elim (env.elapsed_over now time) [
              | true ↦ pure tt
              | false ↦ do
                try_catch (do d ← next_frame friend; send_to_tox env friend d) (pure tt)
                iterate_on fuel friend time
            ]
        ]
    ]

  -- Connection::iterate
  unfoldable pub iterate : ℕ → ℕ → ℕ → Exec (Unit {0})
  iterate fuel friend time = noexcept (iterate_on fuel friend time)
