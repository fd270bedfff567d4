-- ===== src/Lifetime/Kill.antt =====
-- What stays of a core that was killed.
use lib_tox_tun.Base.{ℕ, ◌<◌, ◌≡◌, ◌≢◌, refl, none, some, List, [], ◌∷◌}
use lib_tox_tun.Errors.{Message, ok}
use lib_tox_tun.Assoc.{Keyed, find, erase, find-erase_self, find-erase_ne}
use lib_tox_tun.World.{
  World, Env, Connection, State, own_request_pending, friends_request_pending, expecting_ip_packet,
  expecting_ip_confirmation, connected, deleting,
}
use lib_tox_tun.World.Exec.{noexcept}
use lib_tox_tun.Connection.{destroy}
use lib_tox_tun.Lifecycle.{say_goodbye-tells, farewell}
use lib_tox_tun.CApi.{toxtun_get_last_error}
use lib_tox_tun.Lifetime.{
  Process, set_at, construct_core, new_tox_tun_no_exp, toxtun_new, destroy_each, destroy_members,
  destroy_core, toxtun_kill,
}

farewell-callback :
    (env : Env) (function : ℕ) (state : State) (friend : ℕ) (w : World)
    → (farewell env function state friend w).callback_function ≡ w.callback_function
farewell-callback env function own_request_pending friend w = refl
farewell-callback env function friends_request_pending friend w = refl
farewell-callback env function expecting_ip_packet friend w = refl
farewell-callback env function expecting_ip_confirmation friend w = refl
farewell-callback env function connected friend w = refl
farewell-callback env function deleting friend w = refl

-- The core is gone, and its Tox instance has no callback any more.
abbrev pub without_core : ℕ → Process → Process
without_core handle p = record {
  lossless_to = set_at (p.tox_of handle) none p.lossless_to;
  lossy_to = set_at (p.tox_of handle) none p.lossy_to;
  tox_of = p.tox_of;
  c_interface = record p.c_interface { cores = erase handle p.c_interface.cores };
}

module _ (env : Env) (order : List (ℕ × Connection) → List (ℕ × Connection)) where
  toxtun_kill-is :
      (handle : ℕ) (w : World) (p : Process)
      → find handle p.c_interface.cores ≡ some w
      → toxtun_kill env order (some handle) p
        ≡ ((noexcept (destroy_members env order) w).0, without_core handle p)
  unfolding toxtun_kill destroy_core
  toxtun_kill-is handle w p h = rw (h, destroy_core)

  module _ (function : ℕ) (room : 0 < env.max_packet) where
    -- With a callback, the connections are destroyed one after another and nothing is thrown.
    destroy_each-ok :
        (l : List (ℕ × Connection)) (w : World)
        → w.callback_function ≡ some function
        → (destroy_each env l w).0 ≡ ok tt
    unfolding destroy_each destroy
    destroy_each-ok [] w set = refl
    destroy_each-ok ((friend, c) ∷ rest) w set =
        rw (say_goodbye-tells env function room c.state c.connected_friend w set) (
          destroy_each-ok rest _
            (rw (farewell-callback env function c.state c.connected_friend w) set))

    -- A core with a callback is killed, in whatever order its connections are destroyed: the call
    -- returns, the Tox instance of the core has no callback any more and the other instances have
    -- theirs, the core is gone, and every other core is as before. A packet of one byte fits.
    pub toxtun_kill-ends :
        (handle other : ℕ) (w : World) (p : Process)
        → find handle p.c_interface.cores ≡ some w
        → w.callback_function ≡ some function
        → Keyed 0 p.c_interface.cores
        → other ≢ handle
        → (toxtun_kill env order (some handle) p ≡ (ok tt, without_core handle p))
          × (find handle (without_core handle p).c_interface.cores ≡ none)
          × (find other (without_core handle p).c_interface.cores ≡ find other p.c_interface.cores)
    unfolding destroy_members
    toxtun_kill-ends handle other w p h set keyed apart =
        let ended = destroy_each-ok (order w.connections) (record w { connections = [] }) set in
        (
          rw (toxtun_kill-is handle w p h, ended),
          find-erase_self handle 0 p.c_interface.cores keyed,
          find-erase_ne handle other p.c_interface.cores apart,
        )

  -- An error that was kept for a core outlives it: a core that is created later at the same address
  -- has it for its last error.
  pub toxtun_get_last_error-toxtun_new :
      (handle tox : ℕ) (m : Message) (w : World) (p : Process)
      → find handle p.c_interface.cores ≡ some w
      → find handle p.c_interface.error_strings ≡ some m
      → (toxtun_get_last_error handle
          (toxtun_new tox (some handle) (toxtun_kill env order (some handle) p).1).1.c_interface).0
        ≡ m
  unfolding toxtun_get_last_error toxtun_new new_tox_tun_no_exp construct_core
  toxtun_get_last_error-toxtun_new handle tox m w p h kept =
      rw (toxtun_kill-is handle w p h) (rw kept)
