-- ===== src/Tunnel/Reading.antt =====
-- src/Connection.cpp, `iterate`: one frame is pending, and is sent.
use lib_tox_tun.Base.{ℕ, suc, ◌+◌, ◌≤◌, ◌≡◌, refl, true, false, some, List, arith}
use lib_tox_tun.Errors.{ok}
use lib_tox_tun.Data.{from_tun_data}
use lib_tox_tun.Tun.{get_data, is_from_own_tox}
use lib_tox_tun.Assoc.{find}
use lib_tox_tun.World.{World, Env, Connection, connected, returned}
use lib_tox_tun.World.Exec.{this}
use lib_tox_tun.Incoming.{next_frame, iterate_on, iterate}
use lib_tox_tun.Tunnel.Posting.{framed, Sends}

-- One frame is pending, which is not of the own tox, and then none.
pub record IsPending (env : Env) (port time now : ℕ) (frame : List ℕ) : Type 0 where
  pub asked : env.data_pending now ≡ returned true
  pub in_time : env.elapsed_over (now + 1) time ≡ false
  pub read : env.read_tun (now + 1 + 1) ≡ returned frame
  pub foreign : is_from_own_tox port (framed frame) ≡ ok false
  pub idle : (later : ℕ) → now + 3 ≤ later → env.data_pending later ≡ returned false

module _ (env : Env) (friend : ℕ) (c : Connection) (u : World) (frame : List ℕ)
    (there : find friend u.connections ≡ some c) (up : c.state ≡ connected) where
  -- The world when the frame was read.
  abbrev pub at_frame : World
  at_frame = record u { clock = u.clock + 1 + 1 + 1 }

  pub iterate-frame :
      (fuel time : ℕ)
      → IsPending env c.tox_udp_port time u.clock frame
      → from_tun_data frame ≡ ok (framed frame)
      → (s : Sends env friend c frame at_frame)
      → iterate env (suc (suc fuel)) friend time u
        ≡ (ok tt, record (s.after) { clock = s.after.clock + 1 })
  unfolding iterate iterate_on next_frame this get_data
  iterate-frame fuel time p framing s =
      let idle = p.idle s.after.clock (let later = s.later in omega arith) in
      rw (there, up, p.asked, p.in_time)
        (rw (there, p.read, framing, p.foreign)
          (rw s.done (rw (s.there, s.same_state, up, idle) refl)))
