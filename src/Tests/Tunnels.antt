-- ===== src/Tests/Tunnels.antt =====
-- A frame that is cut into three packets.
use mathlib.Core.List.{Permᴰ}
use lib_tox_tun.Base.{ap, ◌==◌, ℕ, ◌≡◌, refl, some, List, [], ◌∷◌, arith}
use lib_tox_tun.Assoc.{find}
use lib_tox_tun.World.{World, Env, connected, frame_written, returned}
use lib_tox_tun.Tunnel.{carry, carry-frame}
use lib_tox_tun.Tunnel.Reading.{IsPending}
use lib_tox_tun.Tun.{is_from_own_tox}
use lib_tox_tun.Data.{get_ip_data_len}
use lib_tox_tun.Scenario.{calm, one_friend, with_state}

abbrev frame : List ℕ
frame = 1 ∷ 2 ∷ 3 ∷ 4 ∷ 5 ∷ 6 ∷ 7 ∷ []

-- Tox takes packets of seven bytes, and the frame is pending at first.
abbrev narrow : Env
narrow = record calm {
  max_packet = 7;
  data_pending = λ now. returned (now == 0);
  read_tun = λ now. returned frame;
}

frame-IsPending : IsPending narrow 33445 500 0 frame
unfolding is_from_own_tox get_ip_data_len
frame-IsPending = record {
  asked = refl;
  in_time = refl;
  read = refl;
  foreign = refl;
  idle = λ later after. ap returned (ground arith);
}

-- The second packet overtakes the first.
abbrev overtake : List (List ℕ) → List (List ℕ)
overtake [] = []
overtake (p ∷ []) = p ∷ []
overtake (p ∷ (q ∷ rest)) = q ∷ (p ∷ rest)

overtake-Permᴰ : (l : List (List ℕ)) → Permᴰ l (overtake l)
overtake-Permᴰ [] = Permᴰ.nil
overtake-Permᴰ (p ∷ []) = Permᴰ.cons refl Permᴰ.nil
overtake-Permᴰ (p ∷ (q ∷ rest)) = Permᴰ.swap refl refl

abbrev up : World
up = one_friend connected

carry-frame_example :
    (u : World) × (v : World) × (carry narrow calm 7 7 overtake 2 500 up up ≡ some (u, v))
    × (v.actions ≡ frame_written 7 frame ∷ [])
unfolding find
carry-frame_example =
    carry-frame narrow calm 7 7 overtake frame (with_state connected) (with_state connected) 2 500
      up up (λ now to mode bytes. refl) frame-IsPending (λ now. refl) overtake-Permᴰ (omega arith)
      (omega arith, omega arith, omega arith, omega arith) refl refl refl refl refl tt refl
      (omega arith)
