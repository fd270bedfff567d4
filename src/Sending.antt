-- ===== src/Sending.antt =====
-- src/Connection.cpp, `sendToTox`: what is handed to tox for one packet.
use lib_tox_tun.Base.{
  ℕ, ◌+◌, ◌<◌, ◌≡◌, refl, Bool, true, false, some, List, [], ◌∷◌, arith, length, All, leb,
  if◌then◌else◌, Bool-cases, inl, inr, ◌%◌, ◌++◌, ◌∙◌, ap, ◌⊎◌,
}
use lib_tox_tun.Errors.{Result, ok, err}
use lib_tox_tun.Data.{Data, PacketId, lossy, get_tox_data, get_tox_data_len, get_tox_header}
use lib_tox_tun.Split.{get_splitted}
use lib_tox_tun.RoundTrip.{CanSplit, OnWire, get_splitted-OnWire}
use lib_tox_tun.Assoc.{find, assign}
use lib_tox_tun.World.{packet_sent, World, Env, Connection}
use lib_tox_tun.World.Exec.{this, store, tox_send}
use lib_tox_tun.Connection.{
  cannot_send, next_index, take_index, packets_of, send_packet, send_packets, send_to_tox_from,
  send_to_tox,
}
use lib_tox_tun.Closing.{after_send}

get_tox_data-named :
    (v : List ℕ) (set : Bool) {id : PacketId}
    → get_tox_header (record { bytes = v; tox_header_set = set }) ≡ ok id
    → get_tox_data (record { bytes = v; tox_header_set = set }) ≡ ok v
unfolding get_tox_header get_tox_data
get_tox_data-named v true h = refl
get_tox_data-named v false h = absurd (cc)

module _ (env : Env) where
  -- Packets are given to tox one after another until it refuses one.
  abbrev pub deliver : ℕ → List Data → World → Result (Unit {0}) × World
  deliver friend [] w = (ok tt, w)
  deliver friend (d ∷ ds) w =
      let rest = deliver friend ds (after_send env friend lossy d.bytes w) in
      if env.send_status w.clock friend lossy d.bytes
      then rest
      else (err (cannot_send lossy friend), after_send env friend lossy d.bytes w)

  send_packets-deliver :
      (friend max index count : ℕ) (ds : List Data) (w : World)
      → All (OnWire max index count) ds
      → send_packets env friend ds w ≡ deliver friend ds w
  unfolding send_packets send_packet tox_send
  send_packets-deliver friend max index count [] w fit = refl
  send_packets-deliver friend max index count (d ∷ ds) w
        ((small, sends, named, valid, in_set, of_parts), fit) =
      let bytes : get_tox_data d ≡ ok d.bytes = get_tox_data-named d.bytes d.tox_header_set named in
      elim (Bool-cases (env.send_status w.clock friend lossy d.bytes)) [
        | inl accepted ↦
            rw (sends, bytes, accepted)
              (send_packets-deliver friend max index count ds
                (record w {
                  clock = w.clock + 1;
                  actions = packet_sent friend lossy d.bytes true ∷ w.actions;
                })
                fit)
        | inr refused ↦ rw (sends, bytes, refused)
      ]

-- The connection after it numbered a set of fragments.
abbrev pub numbered : ℕ → Connection → World → World
numbered friend c w = record w {
  connections =
      assign friend (record c { next_fragment_index = next_index c.next_fragment_index })
        w.connections;
}

pub send_to_tox-next_index :
    (env : Env) (friend : ℕ) (c : Connection) (w : World) (d : Data) (sent : List Data)
    → find friend w.connections ≡ some c
    → CanSplit env.max_packet d
    → env.max_packet < length d.bytes
    → get_splitted env.max_packet d c.next_fragment_index ≡ ok sent
    → send_to_tox env friend d w ≡ deliver env c.connected_friend sent (numbered friend c w)
unfolding send_to_tox send_to_tox_from packets_of take_index this store get_tox_data_len
send_to_tox-next_index env friend c w d sent h can long cut =
    let big : leb (length d.bytes) env.max_packet ≡ false = ground arith in
    rw (h, big, h, cut) (finish (get_splitted-OnWire env.max_packet d c.next_fragment_index can))
  where
    finish :
        (fragments : List Data) × (get_splitted env.max_packet d c.next_fragment_index
            ≡ ok fragments)
          × (0 < length fragments)
          × All (OnWire env.max_packet c.next_fragment_index (length fragments)) fragments
        → send_packets env c.connected_friend sent (numbered friend c w)
          ≡ deliver env c.connected_friend sent (numbered friend c w)
    finish (fragments, e, more, fit) =
        let same : fragments ≡ sent = cc (e, cut) in
        send_packets-deliver env c.connected_friend env.max_packet c.next_fragment_index
          (length sent) sent (numbered friend c w) (rw same at fit)

if-true : {A : Type 0} (b : Bool) (x y : A) → b ≡ true → (if b then x else y) ≡ x
if-true true x y h = refl
if-true false x y h = absurd (cc)

if-false : {A : Type 0} (b : Bool) (x y : A) → b ≡ false → (if b then x else y) ≡ y
if-false true x y h = absurd (cc)
if-false false x y h = refl

-- The next fragment index of the connection is `index`.
abbrev pub with_index : ℕ → Connection → ℕ → World → World
with_index friend c index w = record w {
  connections = assign friend (record c { next_fragment_index = index }) w.connections;
}

next_index-mod : (i : ℕ) → i < 256 → next_index i ≡ (i + 1) % 256
next_index-mod i byte = ground arith

module _ (env : Env) (friend : ℕ) where
  -- All the packets were given to tox, lossy and in their order.
  abbrev pub handed : List Data → World → World
  handed [] w = w
  handed (d ∷ ds) w = handed ds (after_send env friend lossy d.bytes w)

  -- tox takes each packet when it is given to it.
  abbrev pub AllTaken : List Data → World → Type 0
  AllTaken [] w = Unit
  AllTaken (d ∷ ds) w =
      (env.send_status w.clock friend lossy d.bytes ≡ true)
      × AllTaken ds (after_send env friend lossy d.bytes w)

  -- tox took `given` and refuses `last`, so the packets behind it are not sent.
  pub record StopsAt (sent : List Data) (w : World) (given : List Data) (last : Data) : Type 0 where
    pub unsent : List Data
    pub split : sent ≡ given ++ last ∷ unsent
    pub taken : AllTaken given w
    pub refused : env.send_status (handed given w).clock friend lossy last.bytes ≡ false

  deliver-cases :
      (sent : List Data) (w : World)
      → ((deliver env friend sent w ≡ (ok tt, handed sent w)) × AllTaken sent w)
        ⊎ ((given : List Data) × (last : Data) × StopsAt sent w given last
            × (deliver env friend sent w ≡ (
              err (cannot_send lossy friend),
              after_send env friend lossy last.bytes (handed given w),
            )))
  deliver-cases [] w = inl (refl, tt)
  deliver-cases (d ∷ sent) w = elim (Bool-cases (env.send_status w.clock friend lossy d.bytes)) [
    | inl taken ↦ elim (deliver-cases sent (after_send env friend lossy d.bytes w)) [
      | inl (e, all) ↦ inl (if-true _ _ _ taken ∙ e, (taken, all))
      | inr (given, last, stops, e) ↦ inr (
        d ∷ given,
        last,
        record {
          unsent = stops.unsent;
          split = ap (λ l. d ∷ l) stops.split;
          taken = (taken, stops.taken);
          refused = stops.refused;
        },
        if-true _ _ _ taken ∙ e,
      )
    ]
    | inr refused ↦ inr (
      [],
      d,
      record { unsent = sent; split = refl; taken = tt; refused = refused },
      if-false _ _ _ refused,
    )
  ]

-- A packet that is longer than tox takes: its fragments, under the next index of the connection,
-- are given to tox in their order, and the index is moved on modulo 256. Either tox takes them all
-- and the call returns; or tox refuses one after it took those before, those behind are not sent,
-- and the call throws. The packet fits 255 fragments, and the index is a byte.
pub send_to_tox-deliver :
    (env : Env) (friend : ℕ) (c : Connection) (w : World) (d : Data) (sent : List Data)
    → find friend w.connections ≡ some c
    → c.next_fragment_index < 256
    → CanSplit env.max_packet d
    → env.max_packet < length d.bytes
    → get_splitted env.max_packet d c.next_fragment_index ≡ ok sent
    → let to = c.connected_friend in
      let w' = with_index friend c ((c.next_fragment_index + 1) % 256) w in
      ((send_to_tox env friend d w ≡ (ok tt, handed env to sent w')) × AllTaken env to sent w')
      ⊎ ((given : List Data) × (last : Data) × StopsAt env to sent w' given last
          × (send_to_tox env friend d w ≡ (
            err (cannot_send lossy to),
            after_send env to lossy last.bytes (handed env to given w'),
          )))
send_to_tox-deliver env friend c w d sent h byte can long cut =
    let to = c.connected_friend in
    let w' = with_index friend c ((c.next_fragment_index + 1) % 256) w in
    let moved = send_to_tox-next_index env friend c w d sent h can long cut in
    let e : send_to_tox env friend d w ≡ deliver env to sent w' =
      rw (next_index-mod c.next_fragment_index byte) at moved in
    elim (deliver-cases env to sent w') [
      | inl (all, taken) ↦ inl (e ∙ all, taken)
      | inr (given, last, stops, thrown) ↦ inr (given, last, stops, e ∙ thrown)
    ]
