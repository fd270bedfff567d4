-- ===== src/Tests/Lifetimes.antt =====
-- Cores that are created and killed.
use lib_tox_tun.Base.{ℕ, ◌≡◌, refl, none, some, List, [], ◌∷◌, arith}
use lib_tox_tun.Errors.{text, ok}
use lib_tox_tun.Data.{lossless}
use lib_tox_tun.Assoc.{find, emplace}
use lib_tox_tun.World.{World, Connection, connected}
use lib_tox_tun.Core.{tox_packet_callback}
use lib_tox_tun.CApi.{toxtun_get_last_error}
use lib_tox_tun.Lifetime.{
  Process, set_at, construct_core, new_tox_tun_no_exp, toxtun_new, toxtun_kill, destroy_core,
  hand_over,
}
use lib_tox_tun.Lifetime.Live.{created, killed, run, hand_over-reaches}
use lib_tox_tun.Lifetime.Kill.{without_core, toxtun_kill-ends, toxtun_get_last_error-toxtun_new}
use lib_tox_tun.Scenario.{calm, empty_world, one_friend}

abbrev in_order : List (ℕ × Connection) → List (ℕ × Connection)
in_order m = m

-- No core, and no Tox instance has a callback.
abbrev idle : Process
idle = record {
  lossless_to = λ tox. none;
  lossy_to = λ tox. none;
  tox_of = λ address. 0;
  c_interface = record { cores = []; error_strings = []; error_c_strings = []; c_callback = none };
}

hand_over-reaches_example :
    (w : World) × (find 5
        (run calm in_order
          (created 1 (some 4) ∷ created 2 (some 5) ∷ killed (some 4) ∷ [])
          idle).c_interface.cores
      ≡ some w)
    × ((hand_over calm lossless 2 7 (160 ∷ []) (
          run calm in_order
            (created 1 (some 4) ∷ created 2 (some 5) ∷ killed (some 4) ∷ [])
            idle)).0
        ≡ (tox_packet_callback calm 7 (160 ∷ []) w).0)
unfolding toxtun_new new_tox_tun_no_exp construct_core find emplace toxtun_kill destroy_core
hand_over-reaches_example =
    hand_over-reaches calm in_order (created 1 (some 4) ∷ created 2 (some 5) ∷ killed (some 4) ∷ [])
      idle lossless 2 7 5 (160 ∷ []) (λ tox. refl) (λ tox. refl) (refl, (refl, (tt, tt))) refl

-- Core 4 of the Tox instance 1, with a connection and an error that was kept, and core 5 of 2.
abbrev busy : Process
busy = record {
  lossless_to = set_at 2 (some 5) (set_at 1 (some 4) (λ tox. none));
  lossy_to = set_at 2 (some 5) (set_at 1 (some 4) (λ tox. none));
  tox_of = set_at 5 2 (λ address. 1);
  c_interface = record {
    cores = (4, one_friend connected) ∷ (5, empty_world) ∷ [];
    error_strings = (4, text "old") ∷ [];
    error_c_strings = [];
    c_callback = none;
  };
}

toxtun_kill-ends_example :
    (toxtun_kill calm in_order (some 4) busy ≡ (ok tt, without_core 4 busy))
    × (find 4 (without_core 4 busy).c_interface.cores ≡ none)
    × (find 5 (without_core 4 busy).c_interface.cores ≡ find 5 busy.c_interface.cores)
unfolding find
toxtun_kill-ends_example =
    toxtun_kill-ends calm in_order 1 (omega arith) 4 5 (one_friend connected) busy refl refl
      (omega arith) (omega arith)

toxtun_get_last_error-toxtun_new_example :
    (toxtun_get_last_error 4
      (toxtun_new 3 (some 4) (toxtun_kill calm in_order (some 4) busy).1).1.c_interface).0
    ≡ text "old"
unfolding find
toxtun_get_last_error-toxtun_new_example =
    toxtun_get_last_error-toxtun_new calm in_order 4 3 (text "old") (one_friend connected) busy refl
      refl
