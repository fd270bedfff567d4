-- ===== src/Tunnel/Arriving.antt =====
-- src/Connection.cpp, `handleData`: the packets of one frame, in any order.
use mathlib.Core.List.{Permᴰ}
use lib_tox_tun.Base.{
  ◌∙◌, ℕ, ◌+◌, ◌<◌, ◌≡◌, refl, ap, Bool, true, false, none, some, List, [], ◌∷◌, map, length, arith,
  All, All-Permᴰ, length-Permᴰ,
}
use lib_tox_tun.Errors.{ok}
use lib_tox_tun.Data.{Data, PacketId, packet_data, get_tox_header, get_ip_data, to_byte, at}
use lib_tox_tun.Split.{get_splitted}
use lib_tox_tun.RoundTrip.{CanSplit, OnWire, get_splitted-OnWire}
use lib_tox_tun.Assoc.{Keyed, find, find-assign_self}
use lib_tox_tun.World.{World, Env, Connection, connected, frame_written, returned}
use lib_tox_tun.World.Exec.{this}
use lib_tox_tun.Handlers.{send_to_tun, write_frame}
use lib_tox_tun.Incoming.{dispatch, handle_data_on, handle_data, take_out}
use lib_tox_tun.Collecting.{with_fragments}
use lib_tox_tun.Reassembly.{wire-IsFragment, reassembly}
use lib_tox_tun.Handshake.Receiving.{packet}
use lib_tox_tun.Collecting.{IsFragment}
use lib_tox_tun.Reassembly.Steps.{handle_joined}
use lib_tox_tun.Tunnel.Entering.{receive, callback-known, receive-feed}
use lib_tox_tun.Tunnel.Posting.{framed}

get_ip_data-framed : (frame : List ℕ) → 0 < length frame → get_ip_data (framed frame) ≡ ok frame
unfolding get_ip_data
get_ip_data-framed [] some_bytes = absurd (omega arith)
get_ip_data-framed (b ∷ frame) some_bytes = ground arith

-- The connection is established and writes the frame to its interface.
handle_data-frame :
    (env : Env) (friend : ℕ) (c : Connection) (w : World) (frame : List ℕ)
    → find friend w.connections ≡ some c
    → c.state ≡ connected
    → 0 < length frame
    → env.write_tun w.clock frame ≡ returned tt
    → handle_data env friend (framed frame) w
      ≡ (ok tt, record w { clock = w.clock + 1; actions = frame_written friend frame ∷ w.actions })
unfolding handle_data handle_data_on dispatch send_to_tun write_frame this get_tox_header at
handle_data-frame env friend c w frame there up some_bytes writes =
    rw (there, up) (rw (there, get_ip_data-framed frame some_bytes) (rw writes refl))

module _ {A B : Type 0} (f : A → B) where
  map-Permᴰ : {xs ys : List A} → Permᴰ xs ys → Permᴰ (map f xs) (map f ys)
  map-Permᴰ Permᴰ.nil = Permᴰ.nil
  map-Permᴰ (Permᴰ.cons e p) = Permᴰ.cons (ap f e) (map-Permᴰ p)
  map-Permᴰ (Permᴰ.swap e k) = Permᴰ.swap (ap f e) (ap f k)
  map-Permᴰ (Permᴰ.trans p q) = Permᴰ.trans (map-Permᴰ p) (map-Permᴰ q)

length-map : {A B : Type 0} (f : A → B) (l : List A) → length (map f l) ≡ length l
length-map f [] = refl
length-map f (x ∷ l) = rw (length-map f l) refl

-- A packet with its header set is what tox hands over of its bytes.
packet-named :
    (v : List ℕ) (set : Bool) {id : PacketId}
    → get_tox_header (record { bytes = v; tox_header_set = set }) ≡ ok id
    → packet v ≡ record { bytes = v; tox_header_set = set }
unfolding get_tox_header
packet-named v true h = refl
packet-named v false h = absurd (cc)

packet-wire :
    (max index count : ℕ) (sent : List Data)
    → All (OnWire max index count) sent
    → map packet (map (λ d. d.bytes) sent) ≡ sent
packet-wire max index count [] a = refl
packet-wire max index count (d ∷ sent) ((small, sends, named, valid, in_set, of_parts), a) =
    rw (packet-named d.bytes d.tox_header_set named, packet-wire max index count sent a) refl

single : (x : List ℕ) (l : List (List ℕ)) → length l ≡ 1 → All (λ y. y ≡ x) l → l ≡ x ∷ []
single x [] one a = absurd (omega arith)
single x (y ∷ []) one a = rw a.0 refl
single x (y ∷ (z ∷ l)) one a = absurd (omega arith)

-- The connection that took the packet is still there.
handle_joined-ok :
    (env : Env) (friend : ℕ) (d : Data) (c : Connection) (w w' : World)
    → handle_data env friend d w ≡ (ok tt, w')
    → find friend w'.connections ≡ some c
    → handle_joined env friend d w ≡ (ok tt, w')
unfolding this
handle_joined-ok env friend d c w w' e there = rw e (rw there refl)

module _ (env : Env) (friend : ℕ) (c : Connection) (v : World) (frame : List ℕ)
    (there : find friend v.connections ≡ some c) (up : c.state ≡ connected)
    (some_bytes : 0 < length frame)
    (writes : (now : ℕ) → env.write_tun now frame ≡ returned tt) where
  -- Each packet returns, and after them the frame was written, and nothing else done.
  abbrev Written : List (List ℕ) → Type 0
  Written arrived =
      (v' : World) × (receive env friend arrived v ≡ (ok tt, v'))
      × (v'.actions ≡ frame_written friend frame ∷ v.actions)

  pub receive-whole :
      (packets arrived : List (List ℕ))
      → packets ≡ (200 ∷ frame) ∷ []
      → Permᴰ packets arrived
      → Written arrived
  receive-whole packets arrived is p =
      let it : arrived ≡ (200 ∷ frame) ∷ [] =
        single (200 ∷ frame) arrived (rw (← length-Permᴰ p, is) refl)
          (All-Permᴰ (λ y. y ≡ 200 ∷ frame) p (rw is (refl, tt))) in
      let after : World = record v {
        clock = v.clock + 1;
        actions = frame_written friend frame ∷ v.actions;
      } in
      let known =
        callback-known env friend c v after (200 ∷ frame) there (omega arith)
          (handle_data-frame env friend c v frame there up some_bytes (writes v.clock)) in
      (after, rw (it, known) refl, refl)

  pub receive-cut :
      (max index : ℕ) (sent : List Data) (packets arrived : List (List ℕ))
      → Keyed 0 c.fragments
      → find index c.fragments ≡ none
      → CanSplit max (framed frame)
      → get_splitted max (framed frame) index ≡ ok sent
      → packets ≡ map (λ d. d.bytes) sent
      → Permᴰ packets arrived
      → Written arrived
  unfolding to_byte
  receive-cut max index sent packets arrived keyed free can cut is p =
      let (pieces, e, more, fit) = get_splitted-OnWire max (framed frame) index can in
      let same : pieces ≡ sent = cc (e, cut) in
      let fit' = rw same at fit in
      let wire : map packet packets ≡ sent =
        rw is (packet-wire max index (length sent) sent fit') in
      let moved : Permᴰ (map packet packets) (map packet arrived) = map-Permᴰ packet p in
      let p' : Permᴰ sent (map packet arrived) = rw wire at moved in
      let c' : Connection = record c { fragments = take_out index c.fragments } in
      let named : get_tox_header (framed frame) ≡ ok packet_data =
        unfold get_tox_header in unfold at in refl in
      let taken = with_fragments friend c (take_out index c.fragments) v in
      let there' = find-assign_self friend c' c v.connections there in
      let after : World = record taken {
        clock = v.clock + 1;
        actions = frame_written friend frame ∷ v.actions;
      } in
      let written =
        handle_data-frame env friend c' taken frame there' up some_bytes (writes v.clock) in
      let fed =
        reassembly env friend index max c v (framed frame) sent (map packet arrived) there keyed
          free can cut p' named refl
        ∙ handle_joined-ok env friend (framed frame) c' taken after written there' in
      (
        after,
        receive-feed env friend index (length sent) c v there keyed free after arrived
            (All-Permᴰ (IsFragment index (length sent)) p'
              (wire-IsFragment max index (length sent) sent fit'))
            (rw (length-Permᴰ p', length-map packet arrived) (omega arith)) fed,
        refl,
      )
