-- ===== src/Reassembly/Steps.antt =====
-- One fragment of a set that waits, and the last.
use lib_tox_tun.Base.{
  ap, ℕ, zero, suc, ◌+◌, ◌<◌, ◌≡◌, refl, true, false, Bool, none, some, List, [], ◌∷◌, length,
  arith, ◌==◌, if◌then◌else◌, eq_self,
}
use lib_tox_tun.Errors
use lib_tox_tun.Errors.{Result, ok, err, thrown, out_of_range, terminated, undefined, diverged}
use lib_tox_tun.Data.{
  Data, PacketId, fragment, is_packet, get_tox_header, at, to_byte, connection_request,
  connection_accept, connection_reject, connection_close, connection_reset, ip_proposal, ip_accept,
  ip_reject, packet_data, unnamed,
}
use lib_tox_tun.Assembly.{from_fragments}
use lib_tox_tun.Assoc.{
  Keyed, find, emplace, find-emplace, find-assign_self, assign-emplace, assign-assign,
  erase-emplace, erase_absent,
}
use lib_tox_tun.World.{World, Env, Connection}
use lib_tox_tun.World.Exec.{Exec, ◌>>=◌, ◌>>◌, noexcept, pure, this, store}
use lib_tox_tun.Incoming.{
  Fragments, collect, take_out, dispatch, handle_complete, handle_data_on, waiting_at, handle_data,
}
use lib_tox_tun.Collecting.{IsFragment, with_fragments, handle_data-fragment}

-- The fragments `l`, the latest first, wait under `index`.
abbrev pub waiting : ℕ → List Data → Fragments → Fragments
waiting index [] m = m
waiting index (d ∷ l) m = emplace index (d ∷ l) m

collect-waiting :
    (index : ℕ) (d : Data) (l : List Data) (m : Fragments)
    → Keyed 0 m
    → find index m ≡ none
    → collect index d (waiting index l m) ≡ emplace index (d ∷ l) m
unfolding collect
collect-waiting index d [] m s free = rw (free, collect)
collect-waiting index d (f ∷ l) m s free =
    rw (find-emplace index index 0 (f ∷ l) m s free, eq_self index, collect)
      (assign-emplace index (d ∷ f ∷ l) (f ∷ l) m free)

take_out-emplace :
    (index : ℕ) (l : List Data) (m : Fragments)
    → find index m ≡ none
    → take_out index (emplace index l m) ≡ take_out index m
unfolding take_out
take_out-emplace index l m free = rw (erase-emplace index l m free, erase_absent index m free)

header-pos_list :
    (v : List ℕ) (named : Bool) {id : PacketId}
    → get_tox_header (record { bytes = v; tox_header_set = named }) ≡ ok id
    → 0 < length v
unfolding get_tox_header at
header-pos_list [] true h = absurd (cc)
header-pos_list [] false h = absurd (cc)
header-pos_list (b ∷ v) named h = omega arith

pub header-pos : (d : Data) {id : PacketId} → get_tox_header d ≡ ok id → 0 < length d.bytes
header-pos d h = header-pos_list d.bytes d.tox_header_set h

suc_of : (a b : ℕ) → 0 < b → (n : ℕ) × (a + b ≡ suc n)
suc_of a zero h = absurd (omega arith)
suc_of a (suc b) h = (a + b, omega arith)

noexcept_twice :
    {A : Type 0} (r : Result A) → Errors.noexcept (Errors.noexcept r) ≡ Errors.noexcept r
noexcept_twice (ok a) = refl
noexcept_twice (err (thrown e)) = refl
noexcept_twice (err out_of_range) = refl
noexcept_twice (err terminated) = refl
noexcept_twice (err undefined) = refl
noexcept_twice (err diverged) = refl

-- `handleData` on a packet that was put together: the connection is then read, for the log.
abbrev pub handle_joined : Env → ℕ → Data → Exec (Unit {0})
handle_joined env friend d = noexcept (handle_data env friend d >> (this friend >>= λ c. pure tt))

module _ (env : Env) where
  dispatch-again :
      (a b : Data → Exec (Unit {0})) (id : PacketId) (friend : ℕ) (d : Data)
      → is_packet id fragment ≡ false
      → dispatch env a id friend d ≡ dispatch env b id friend d
  unfolding dispatch to_byte
  dispatch-again a b connection_request friend d other = refl
  dispatch-again a b connection_accept friend d other = refl
  dispatch-again a b connection_reject friend d other = refl
  dispatch-again a b connection_close friend d other = refl
  dispatch-again a b connection_reset friend d other = refl
  dispatch-again a b ip_proposal friend d other = refl
  dispatch-again a b ip_accept friend d other = refl
  dispatch-again a b ip_reject friend d other = refl
  dispatch-again a b packet_data friend d other = refl
  dispatch-again a b fragment friend d other = absurd (cc)
  dispatch-again a b (unnamed x) friend d other = refl

  -- What `handleData` does with a packet that is no fragment does not depend on the fuel.
  handle_data_on-whole :
      (n friend : ℕ) (d : Data) (id : PacketId) (w : World)
      → get_tox_header d ≡ ok id
      → is_packet id fragment ≡ false
      → handle_data_on env (suc n) friend d w ≡ handle_data env friend d w
  unfolding handle_data_on handle_data
  handle_data_on-whole n friend d id w named other = rw named (
      rw (
        dispatch-again (handle_data_on env n friend)
          (handle_data_on env (waiting_at (find friend w.connections) + length d.bytes) friend) id
          friend d other))

  module _ (friend index count : ℕ) (c : Connection) (w : World)
      (h : find friend w.connections ≡ some c) (s : Keyed 0 c.fragments)
      (free : find index c.fragments ≡ none) where
    -- The world while the fragments `l` wait.
    abbrev pub collected : List Data → World
    collected l = with_fragments friend c (waiting index l c.fragments) w

    handle_data-collected :
        (d : Data) (l : List Data)
        → IsFragment index count d
        → (n : ℕ) × (handle_data env friend d (collected l)
            ≡ noexcept
                (noexcept (
                  if length (d ∷ l) == count
                  then handle_complete env (handle_data_on env (suc n) friend) friend index (d ∷ l)
                  else pure tt))
                (collected (d ∷ l)))
    handle_data-collected d l f =
        let c' : Connection = record c { fragments = waiting index l c.fragments } in
        let kept = find-assign_self friend c' c w.connections h in
        let (n, e) =
          suc_of (waiting_at (find friend (collected l).connections)) (length d.bytes)
            (header-pos d f.named) in
        let added = collect-waiting index d l c.fragments s free in
        let there : find index (emplace index (d ∷ l) c.fragments) ≡ some (d ∷ l) =
          rw (find-emplace index index 0 (d ∷ l) c.fragments s free, eq_self index) in
        (
          n,
          rw
              (
                handle_data-fragment env friend index count d c' (d ∷ l) (collected l) f kept
                    (rw added there),
                e,
                added,
              )
              (rw (
                assign-assign friend (record c { fragments = emplace index (d ∷ l) c.fragments }) c'
                  w.connections)),
        )

    pub collect_more :
        (d : Data) (l : List Data)
        → IsFragment index count d
        → length l + 1 < count
        → handle_data env friend d (collected l) ≡ (ok tt, collected (d ∷ l))
    collect_more d l f more =
        let (n, e) = handle_data-collected d l f in
        let part : (length (d ∷ l) == count) ≡ false = ground arith in rw (e, part)

    -- The world when the set was put together.
    abbrev pub taken_out : World
    taken_out = with_fragments friend c (take_out index c.fragments) w

    pub collect_last :
        (d : Data) (l : List Data) (whole : Data) (id : PacketId)
        → IsFragment index count d
        → length l + 1 ≡ count
        → from_fragments (d ∷ l) ≡ ok whole
        → get_tox_header whole ≡ ok id
        → is_packet id fragment ≡ false
        → handle_data env friend d (collected l) ≡ handle_joined env friend whole taken_out
    unfolding handle_complete this store
    collect_last d l whole id f last joins named other =
        let (n, e) = handle_data-collected d l f in
        let full : (length (d ∷ l) == count) ≡ true = ground arith in
        let c' : Connection = record c { fragments = emplace index (d ∷ l) c.fragments } in
        let kept = find-assign_self friend c' c w.connections h in
        rw (e, full)
          (rw (kept, joins)
            (rw
              (
                assign-assign friend
                    (record c { fragments = take_out index (emplace index (d ∷ l) c.fragments) }) c'
                    w.connections,
                take_out-emplace index (d ∷ l) c.fragments free,
              )
              (rw (handle_data_on-whole n friend whole id taken_out named other) (
                let m : Exec (Unit {0}) =
                  handle_data env friend whole >> (this friend >>= λ x. pure tt) in
                ap (λ (r : Result (Unit {0})). (r, (m taken_out).1))
                  (noexcept_twice (m taken_out).0)))))
