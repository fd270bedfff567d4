-- ===== src/Tunnel/Posting.antt =====
-- src/Connection.cpp, `sendToTox`: the packets of one frame.
use mathlib.Core.List.{append-nil, append_assoc}
use lib_tox_tun.Base.{
  ℕ, ◌+◌, ◌≤◌, ◌<◌, ◌≡◌, refl, sym, ap, ◌∙◌, true, some, List, [], ◌∷◌, ◌++◌, map, length, arith,
  eq_self, leb, Bool-cases, ◌⊎◌, inl, inr,
}
use lib_tox_tun.Errors.{Result, ok}
use lib_tox_tun.Data.{Data, SendTox, lossy, get_send_tox}
use lib_tox_tun.Split.{get_splitted}
use lib_tox_tun.RoundTrip.{CanSplit, get_splitted-OnWire}
use lib_tox_tun.Assoc.{find, find-assign_self}
use lib_tox_tun.World.{World, Env, Connection, packet_sent}
use lib_tox_tun.World.Exec.{this}
use lib_tox_tun.Connection.{next_index, send_to_tox}
use lib_tox_tun.Closing.{after_send, send_to_tox_from-fits}
use lib_tox_tun.Sending.{deliver, numbered, send_to_tox-next_index}
use lib_tox_tun.Handshake.{posted}

-- The packet of a frame.
abbrev pub framed : List ℕ → Data
framed frame = record { bytes = 200 ∷ frame; tox_header_set = true }

module _ (env : Env) (friend : ℕ) where
  -- What `sendToTox` does with the packet of a frame: tox takes the packet, or its fragments.
  pub record Sends (c : Connection) (frame : List ℕ) (w : World) : Type 0 where
    pub after : World
    pub packets : List (List ℕ)
    pub done : send_to_tox env friend (framed frame) w ≡ (ok tt, after)
    pub told : posted friend after.actions ≡ posted friend w.actions ++ packets
    pub left : Connection
    pub there : find friend after.connections ≡ some left
    pub same_state : left.state ≡ c.state
    pub later : w.clock ≤ after.clock
    pub cases :
        (packets ≡ (200 ∷ frame) ∷ [])
        ⊎ ((sent : List Data) × (get_splitted env.max_packet (framed frame) c.next_fragment_index
              ≡ ok sent)
            × (packets ≡ map (λ d. d.bytes) sent))

  module _
      (takes : (now to : ℕ) (mode : SendTox) (bytes : List ℕ)
        → env.send_status now to mode bytes ≡ true) where
    deliver-posts :
        (sent : List Data) (w : World)
        → (w' : World) × (deliver env friend sent w ≡ (ok tt, w'))
          × (posted friend w'.actions ≡ posted friend w.actions ++ map (λ d. d.bytes) sent)
          × (w'.connections ≡ w.connections)
          × (w.clock ≤ w'.clock)
    deliver-posts [] w = (w, refl, sym (append-nil (posted friend w.actions)), refl, omega arith)
    deliver-posts (d ∷ sent) w =
        let w1 : World = record w {
          clock = w.clock + 1;
          actions = packet_sent friend lossy d.bytes true ∷ w.actions;
        } in
        let (w', e, p, kept, later) = deliver-posts sent w1 in
        (
          w',
          rw (takes w.clock friend lossy d.bytes) e,
          rw (eq_self friend) at p ∙ append_assoc (posted friend w.actions) (d.bytes ∷ []) _,
          kept,
          omega arith,
        )

    module _ (c : Connection) (w : World) (frame : List ℕ)
        (there : find friend w.connections ≡ some c) (named : c.connected_friend ≡ friend)
        (can : CanSplit env.max_packet (framed frame)) where
      whole-Sends : length (framed frame).bytes ≤ env.max_packet → Sends c frame w
      unfolding send_to_tox this
      whole-Sends fits =
          let e =
            send_to_tox_from-fits env (framed frame) friend (some friend) lossy w fits refl
              (unfold get_send_tox in refl) in
          record {
            after = after_send env friend lossy (200 ∷ frame) w;
            packets = (200 ∷ frame) ∷ [];
            done = rw (there, named, e, takes w.clock friend lossy (200 ∷ frame)) refl;
            told = rw (eq_self friend, takes w.clock friend lossy (200 ∷ frame)) refl;
            left = c;
            there = there;
            same_state = refl;
            later = omega arith;
            cases = inl refl;
          }

      cut-Sends : env.max_packet < length (framed frame).bytes → Sends c frame w
      cut-Sends long =
          let (sent, cut, some_sent, fit) =
            get_splitted-OnWire env.max_packet (framed frame) c.next_fragment_index can in
          let (w', e, p, kept, later) = deliver-posts sent (numbered friend c w) in
          let to : ℕ → Result (Unit {0}) × World = λ f. deliver env f sent (numbered friend c w) in
          let c' : Connection = record c {
            next_fragment_index = next_index c.next_fragment_index;
          } in
          record {
            after = w';
            packets = map (λ d. d.bytes) sent;
            done =
                send_to_tox-next_index env friend c w (framed frame) sent there can long cut
                ∙ ap to named
                ∙ e;
            told = p;
            left = c';
            there = ap (find friend) kept ∙ find-assign_self friend c' c w.connections there;
            same_state = refl;
            later = later;
            cases = inr (sent, cut, refl);
          }

      pub send_to_tox-Sends : Sends c frame w
      send_to_tox-Sends = elim (Bool-cases (leb (length (framed frame).bytes) env.max_packet)) [
        | inl fits ↦ whole-Sends (ground arith)
        | inr long ↦ cut-Sends (ground arith)
      ]
