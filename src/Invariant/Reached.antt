-- ===== src/Invariant/Reached.antt =====
-- src/ToxTunCore.cpp: what holds after any calls of the library, one after another.
use lib_tox_tun.Base.{ℕ, ◌<◌, ◌≡◌, ◌≢◌, Option, List, [], ◌∷◌}
use lib_tox_tun.Errors.{thrown, out_of_range, terminated, undefined, diverged, Result, ok, err}
use lib_tox_tun.Assoc.{Keyed}
use lib_tox_tun.Assoc.Every.{Every}
use lib_tox_tun.World.{World, Env, Connection}
use lib_tox_tun.World.Exec.{Exec}
use lib_tox_tun.Core.{
  set_callback, tox_packet_callback, iterate_all, send_request, accept_connection,
  reject_connection, close_connection,
}
use lib_tox_tun.Invariant.{IsSound, IsValid, Fine}
use lib_tox_tun.Invariant.Lax.{Lax}
use lib_tox_tun.Invariant.Iterating.{Keeps-iterate_all}
use lib_tox_tun.Invariant.Calls.{
  Safe-tox_packet_callback, Safe-send_request, Safe-accept_connection, Safe-reject_connection,
  Safe-close_connection,
}

-- What tox and the program call.
pub data Call : Type 0 where
  packet_received : (friend : ℕ) (bytes : List ℕ) → Call
  callback_changed : (function : Option ℕ) (user_data : ℕ) → Call
  request_sent request_accepted request_rejected connection_ended : (friend : ℕ) → Call

module _ (env : Env) where
  abbrev pub perform : Call → Exec (Unit {0})
  perform (packet_received friend bytes) = tox_packet_callback env friend bytes
  perform (callback_changed function user_data) = set_callback function user_data
  perform (request_sent friend) = send_request env friend
  perform (request_accepted friend) = accept_connection env friend
  perform (request_rejected friend) = reject_connection env friend
  perform (connection_ended friend) = close_connection env friend

  -- The caller gets a value or an exception, and may call again.
  abbrev pub ComesBack : Result (Unit {0}) → Type 0
  ComesBack (ok a) = Unit
  ComesBack (err (thrown e)) = Unit
  ComesBack (err out_of_range) = Unit
  ComesBack (err e) = ⊥

  -- The worlds after calls that came back, `iterate` among them, from one without connections.
  pub data Reached : World → Type 0 where
    start : {w : World} → w.connections ≡ [] → Reached w
    call : {w : World} (c : Call) → Reached w → ComesBack (perform c w).0 → Reached (perform c w).1
    iterated :
        {w : World} (fuel : ℕ)
        → Reached w
        → ComesBack (iterate_all env fuel w).0
        → Reached (iterate_all env fuel w).1

  back-Fine : (r : Result (Unit {0})) (w : World) → ComesBack r → Fine r w → IsValid w
  back-Fine (ok a) w b h = h
  back-Fine (err (thrown e)) w b h = h
  back-Fine (err out_of_range) w b h = h
  back-Fine (err terminated) w b h = absurd b
  back-Fine (err undefined) w b h = absurd b
  back-Fine (err diverged) w b h = absurd b

  back-Lax : (r : Result (Unit {0})) (w : World) → ComesBack r → Lax r w → IsValid w
  back-Lax (ok a) w b h = h
  back-Lax (err (thrown e)) w b h = h
  back-Lax (err out_of_range) w b h = h
  back-Lax (err terminated) w b h = absurd b
  back-Lax (err undefined) w b h = absurd b
  back-Lax (err diverged) w b h = absurd b

  none_yet : (m : List (ℕ × Connection)) → m ≡ [] → Keyed 0 m × Every IsSound m
  none_yet [] e = (tt, tt)
  none_yet (entry ∷ m) e = absurd (cc)

  module _ (room : 2 < env.max_packet) where
    perform-Fine : (c : Call) (w : World) → IsValid w → Fine (perform c w).0 (perform c w).1
    perform-Fine (packet_received friend bytes) w v =
        Safe-tox_packet_callback env room friend bytes w v
    perform-Fine (callback_changed function user_data) w v = unfold set_callback in v
    perform-Fine (request_sent friend) w v = Safe-send_request env room friend w v
    perform-Fine (request_accepted friend) w v = Safe-accept_connection env room friend w v
    perform-Fine (request_rejected friend) w v = Safe-reject_connection env room friend w v
    perform-Fine (connection_ended friend) w v = Safe-close_connection env room friend w v

    -- After any calls that came back, `iterate` among them, the map of the core is in the order of
    -- its keys, and every connection in it stands under the number of its friend, is not being
    -- deleted, has a subnet from -1 to 255, a next fragment index of one byte, and sets of
    -- fragments in the order of their indices, none empty, each with valid fragments of its own
    -- index only. At least three bytes fit into a packet.
    pub Reached-IsValid : {w : World} → Reached w → IsValid w
    Reached-IsValid {w} (start empty) = none_yet w.connections empty
    Reached-IsValid (call {w} c r b) =
        back-Fine (perform c w).0 (perform c w).1 b (perform-Fine c w (Reached-IsValid r))
    Reached-IsValid (iterated {w} fuel r b) =
        back-Lax (iterate_all env fuel w).0 (iterate_all env fuel w).1 b
          (Keeps-iterate_all env fuel w (Reached-IsValid r))

Fine-ends : (r : Result (Unit {0})) (w : World) → Fine r w → r ≢ err diverged
Fine-ends (ok a) w h e = absurd (cc)
Fine-ends (err (thrown f)) w h e = absurd (cc)
Fine-ends (err out_of_range) w h e = absurd (cc)
Fine-ends (err terminated) w h e = absurd (cc)
Fine-ends (err undefined) w h e = absurd (cc)
Fine-ends (err diverged) w h e = h

-- After any calls that came back, each further call but `iterate` ends: neither the search for an
-- unused subnet nor the handling of fragments in fragments runs out of fuel. At least three bytes
-- fit into a packet.
pub perform-ends :
    (env : Env) (w : World) (c : Call)
    → 2 < env.max_packet
    → Reached env w
    → (perform env c w).0 ≢ err diverged
perform-ends env w c room r =
    Fine-ends (perform env c w).0 (perform env c w).1
      (perform-Fine env room c w (Reached-IsValid env room r))
