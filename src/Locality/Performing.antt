-- ===== src/Locality/Performing.antt =====
-- src/ToxTunCore.cpp: the calls for one friend, in one statement.
use lib_tox_tun.Base.{ℕ, Option}
use lib_tox_tun.World.{World, Env}
use lib_tox_tun.Core.{set_callback}
use lib_tox_tun.Invariant.Reached.{
  Call, packet_received, callback_changed, request_sent, request_accepted, request_rejected,
  connection_ended, perform,
}
use lib_tox_tun.Locality.{IsLocal, Preserves}
use lib_tox_tun.Locality.Calls.{
  tox_packet_callback-Preserves, send_request-Preserves, accept_connection-Preserves,
  reject_connection-Preserves, close_connection-Preserves,
}

-- The friend of a call satisfies `Q`, if the call has one.
abbrev pub Concerns : (ℕ → Type 0) → Call → Type 0
Concerns Q (packet_received f bytes) = Q f
Concerns Q (callback_changed function user_data) = Unit
Concerns Q (request_sent f) = Q f
Concerns Q (request_accepted f) = Q f
Concerns Q (request_rejected f) = Q f
Concerns Q (connection_ended f) = Q f

-- A property that allows the calls for each friend in `Q` is kept by them.
pub perform-Preserves :
    (env : Env) (Q : ℕ → Type 0) (P : World → Type 0) (c : Call)
    → ((w : World) (function : Option ℕ) (user_data : ℕ)
        → P w
        → P (record w { callback_function = function; callback_user_data = user_data }))
    → ((f : ℕ) → Q f → IsLocal f P)
    → Concerns Q c
    → Preserves P (perform env c)
perform-Preserves env Q P (packet_received f bytes) callback locals q =
    tox_packet_callback-Preserves env f P (locals f q) bytes
perform-Preserves env Q P (callback_changed function user_data) callback locals q =
    λ w h. unfold set_callback in callback w function user_data h
perform-Preserves env Q P (request_sent f) callback locals q =
    send_request-Preserves env f P (locals f q)
perform-Preserves env Q P (request_accepted f) callback locals q =
    accept_connection-Preserves env f P (locals f q)
perform-Preserves env Q P (request_rejected f) callback locals q =
    reject_connection-Preserves env f P (locals f q)
perform-Preserves env Q P (connection_ended f) callback locals q =
    close_connection-Preserves env f P (locals f q)
