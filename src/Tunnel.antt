-- ===== src/Tunnel.antt =====
-- src/Connection.cpp: a frame on its way from the interface of one peer to that of the other.
mod Posting
mod Entering
mod Arriving
pub mod Reading
use mathlib.Core.List.{Permᴰ}
use lib_tox_tun.Base.{
  length, ℕ, zero, suc, ◌+◌, ◌<◌, ◌≤◌, ◌≡◌, refl, true, Option, none, some, List, [], ◌∷◌, arith,
  ◌⊎◌, inl, inr,
}
use lib_tox_tun.Data.{SendTox, from_tun_data, to_byte}
use lib_tox_tun.Data.Frames.{from_tun_data-cons}
use lib_tox_tun.Errors.{Result, ok, err}
use lib_tox_tun.RoundTrip.{CanSplit}
use lib_tox_tun.Assoc.{Keyed, find}
use lib_tox_tun.World.{World, Env, Connection, connected, frame_written, returned}
use lib_tox_tun.Handshake.{run, then_some}
use lib_tox_tun.Tunnel.Reading.{IsPending, at_frame, iterate-frame}
use lib_tox_tun.Tunnel.Entering.{receive}
use lib_tox_tun.Incoming.{iterate}
use lib_tox_tun.Handshake.Receiving.{begun, ended, run-ok}
use lib_tox_tun.Tunnel.Posting.{send_to_tox-Sends}
use lib_tox_tun.Tunnel.Arriving.{receive-whole, receive-cut}
pub use Posting.{framed}

from_tun_data-framed :
    (max : ℕ) (frame : List ℕ)
    → 0 < length frame
    → CanSplit max (framed frame)
    → from_tun_data frame ≡ ok (framed frame)
unfolding to_byte
from_tun_data-framed max frame some_bytes (big, filled, split, fits) =
    from_tun_data-cons frame some_bytes (omega arith)

abbrev after_return : Result (Unit {0}) × World → Option World
after_return (ok done, w) = some w
after_return (err e, w) = none

-- The caller iterates, and the callee is given the packets in the order of `shuffle`: `none` if a
-- call of either does not return.
abbrev pub carry :
    Env
    → Env
    → ℕ
    → ℕ
    → (List (List ℕ) → List (List ℕ))
    → ℕ
    → ℕ
    → World
    → World
    → Option (World × World)
carry a b caller callee shuffle fuel time u v =
    then_some (run callee (iterate a fuel callee time) u) (λ sent.
      then_some (after_return (receive b caller (shuffle sent.1) v)) (λ v'. some (sent.0, v')))

-- One frame is pending at the interface of one peer, on an established connection to another peer
-- for whom it is established too: one round of `iterate` returns, and once its packets arrived at
-- the other peer, in any order `shuffle`, each call there returned too, and that peer has written
-- this frame to the interface and done nothing else. The frame is not empty, is no packet of the
-- own tox, is read in time, fits 255 fragments, and the interface of the receiver takes it; tox
-- takes every packet; the receiver's sets are in the order of their indices, and none waits under
-- the index that the sender uses next.
pub carry-frame :
    (a b : Env) (caller callee : ℕ) (shuffle : List (List ℕ) → List (List ℕ)) (frame : List ℕ)
    (c c' : Connection) (fuel time : ℕ) (u v : World)
    → ((now to : ℕ) (mode : SendTox) (bytes : List ℕ) → a.send_status now to mode bytes ≡ true)
    → IsPending a c.tox_udp_port time u.clock frame
    → ((now : ℕ) → b.write_tun now frame ≡ returned tt)
    → ((packets : List (List ℕ)) → Permᴰ packets (shuffle packets))
    → 0 < length frame
    → CanSplit a.max_packet (framed frame)
    → find callee u.connections ≡ some c
    → c.connected_friend ≡ callee
    → c.state ≡ connected
    → find caller v.connections ≡ some c'
    → c'.state ≡ connected
    → Keyed 0 c'.fragments
    → find c.next_fragment_index c'.fragments ≡ none
    → 2 ≤ fuel
    → (u' : World) × (v' : World) × (carry a b caller callee shuffle fuel time u v ≡ some (u', v'))
      × (v'.actions ≡ frame_written caller frame ∷ v.actions)
carry-frame a b caller callee shuffle frame c c' zero time u v takes pending writes moves some_bytes
      can there named up there' up' keyed free enough =
    absurd (omega arith)
carry-frame a b caller callee shuffle frame c c' (suc zero) time u v takes pending writes moves
      some_bytes can there named up there' up' keyed free enough =
    absurd (omega arith)
carry-frame a b caller callee shuffle frame c c' (suc (suc fuel)) time u v takes pending writes
      moves some_bytes can there named up there' up' keyed free enough =
    let s =
      send_to_tox-Sends a callee takes c (at_frame a callee c (begun u) frame there up) frame there
        named can in
    let told : World = record (s.after) { clock = s.after.clock + 1 } in
    let read =
      iterate-frame a callee c (begun u) frame there up fuel time pending
        (from_tun_data-framed a.max_packet frame some_bytes can) s in
    let p = moves s.packets in
    let got : (v' : World) × (receive b caller (shuffle s.packets) v ≡ (ok tt, v'))
        × (v'.actions ≡ frame_written caller frame ∷ v.actions) =
      elim s.cases [
        | inl whole ↦
            receive-whole b caller c' v frame there' up' some_bytes writes s.packets
              (shuffle s.packets) whole p
        | inr (sent, cut, is) ↦
            receive-cut b caller c' v frame there' up' some_bytes writes a.max_packet
              c.next_fragment_index sent s.packets (shuffle s.packets) keyed free can cut is p
      ] in
    let (v', received, written) = got in
    let ran = run-ok callee (iterate a (suc (suc fuel)) callee time) u told read in
    (ended u told, v', rw (ran, s.told) (rw received refl), written)
