-- ===== src/Tunnel/Entering.antt =====
-- src/ToxTunCore.cpp, `toxPacketCallback`: the packets of a friend with a connection.
use mathlib.Core.List.{append-nil}
use lib_tox_tun.Base.{
  ℕ, ◌+◌, ◌-◌, ◌<◌, ◌≤◌, ◌≡◌, refl, sym, ap, ◌∙◌, none, some, List, [], ◌∷◌, map, length, arith,
  All,
}
use lib_tox_tun.Errors.{Result, ok, ◌>>=◌}
use lib_tox_tun.Data.{Data, new, copy_at, from_tox_data}
use lib_tox_tun.Data.Laws.{new-pos, copy_onto_zeros}
use lib_tox_tun.Assoc.{Keyed, find, find-assign_self, assign_same}
use lib_tox_tun.World.{World, Env, Connection}
use lib_tox_tun.Core.{tox_packet_callback}
use lib_tox_tun.Incoming.{handle_data}
use lib_tox_tun.Collecting.{IsFragment}
use lib_tox_tun.Reassembly.{feed, continue-pure}
use lib_tox_tun.World.Exec.{Exec, pure, ◌>>◌}
use lib_tox_tun.Reassembly.Steps.{waiting, collected, collect_more, header-pos}
use lib_tox_tun.Handshake.Receiving.{packet, callback-handle_data}

-- One packet after another, as long as the call returns.
abbrev pub receive : Env → ℕ → List (List ℕ) → Exec (Unit {0})
receive env friend [] = pure tt
receive env friend (bytes ∷ rest) = tox_packet_callback env friend bytes >> receive env friend rest

copy_at-new :
    (bytes : List ℕ) → 0 < length bytes → copy_at (new (length bytes)).bytes 0 bytes ≡ ok bytes
copy_at-new bytes some_bytes =
    let all : length bytes - length bytes ≡ 0 = omega arith in
    rw
      (
        new-pos (length bytes) some_bytes,
        copy_onto_zeros [] bytes (length bytes) some_bytes (omega arith),
        all,
      )
      (rw (append-nil bytes) refl)

from_tox_data-packet : (bytes : List ℕ) → 0 < length bytes → from_tox_data bytes ≡ ok (packet bytes)
unfolding from_tox_data new copy_at
from_tox_data-packet bytes some_bytes =
    ap (λ (r : Result (List ℕ)). r >>= λ v. ok (packet v)) (copy_at-new bytes some_bytes)

module _ (env : Env) (friend : ℕ) where
  -- A friend with a connection: the connection handles the packet.
  pub callback-known :
      (c : Connection) (w w' : World) (bytes : List ℕ)
      → find friend w.connections ≡ some c
      → 0 < length bytes
      → handle_data env friend (packet bytes) w ≡ (ok tt, w')
      → tox_packet_callback env friend bytes w ≡ (ok tt, w')
  callback-known c w w' bytes there some_bytes e =
      callback-handle_data env friend bytes w w' (from_tox_data-packet bytes some_bytes) there e

  module _ (index count : ℕ) (c : Connection) (w : World) (h : find friend w.connections ≡ some c)
      (s : Keyed 0 c.fragments) (free : find index c.fragments ≡ none) (w' : World) where
    receive-collected :
        (arrived : List (List ℕ)) (l : List Data)
        → All (IsFragment index count) (map packet arrived)
        → length l + length arrived ≤ count
        → feed env friend (map packet arrived) (collected env friend index count c w h s free l)
          ≡ (ok tt, w')
        → receive env friend arrived (collected env friend index count c w h s free l) ≡ (ok tt, w')
    receive-collected [] l fs few e = e
    receive-collected (bytes ∷ []) l (f, fs) few e =
        let last = sym (continue-pure _ _) ∙ e in
        let known =
          callback-known (record c { fragments = waiting index l c.fragments })
            (collected env friend index count c w h s free l) w' bytes
            (find-assign_self friend _ c w.connections h) (header-pos (packet bytes) f.named)
            last in
        rw known refl
    receive-collected (bytes ∷ (next ∷ rest)) l (f, fs) few e =
        let more =
          collect_more env friend index count c w h s free (packet bytes) l f (omega arith) in
        let known =
          callback-known (record c { fragments = waiting index l c.fragments })
            (collected env friend index count c w h s free l) _ bytes
            (find-assign_self friend _ c w.connections h) (header-pos (packet bytes) f.named)
            more in
        rw known
          (receive-collected (next ∷ rest) (packet bytes ∷ l) fs (omega arith) (rw more at e))

    pub receive-feed :
        (arrived : List (List ℕ))
        → All (IsFragment index count) (map packet arrived)
        → length arrived ≤ count
        → feed env friend (map packet arrived) w ≡ (ok tt, w')
        → receive env friend arrived w ≡ (ok tt, w')
    receive-feed arrived fs few e =
        let same : collected env friend index count c w h s free [] ≡ w =
          rw (assign_same friend c w.connections h) refl in
        rw same at (receive-collected arrived [] fs (omega arith) (rw (← same) at e))
