-- ===== src/World/Exec.antt =====
-- The methods of ToxTunCore and Connection.
pub use lib_tox_tun.Method.{
  pure, raise, lift, gets, continue, ◌>>=◌, ◌>>◌, caught, try_catch, noexcept,
}
use lib_tox_tun.Method.{Method}
use lib_tox_tun.Base.{ℕ, ◌+◌, Bool, Option, none, some, List, ◌∷◌}
use lib_tox_tun.Errors.{thrown, undefined, Result, ok, err, error}
use lib_tox_tun.Assoc.{find, assign}
use lib_tox_tun.Data.{SendTox}
use lib_tox_tun.World.{World, Env, Connection, Action, Attempt, returned, failed, Event}

abbrev pub Exec : Type 0 → Type 0
Exec A = Method World A

abbrev pub to_result : {A : Type 0} → Attempt A → Result A
to_result (returned a) = ok a
to_result (failed e) = err (thrown e)

abbrev pub attempt : {A : Type 0} → Attempt A → Exec A
attempt r w = (to_result r, w)

abbrev pub act : Action → Exec (Unit {0})
act a w = (ok tt, record w { actions = a ∷ w.actions })

-- The clock before a call of the code outside, which advances it.
abbrev pub tick : Exec ℕ
tick w = (ok w.clock, record w { clock = w.clock + 1 })

abbrev pub found : Option Connection → Exec Connection
found none w = (err undefined, w)
found (some c) w = (ok c, w)

-- A method's access to its object: undefined once the object was erased from the map.
unfoldable pub this : ℕ → Exec Connection
this friend w = found (find friend w.connections) w

unfoldable pub store : ℕ → Connection → Exec (Unit {0})
store friend c w = (ok tt, record w { connections = assign friend c w.connections })

-- ToxTunCore::callback
unfoldable pub called : Option ℕ → Event → ℕ → Exec (Unit {0})
called none event friend w = (err (error "Callback function not set"), w)
called (some function) event friend w = (
  ok tt,
  record w {
    actions = Action.callback_called function event friend w.callback_user_data ∷ w.actions;
  },
)

unfoldable pub callback : Event → ℕ → Exec (Unit {0})
unfolding called
callback event friend w = called w.callback_function event friend w

-- `tox_friend_send_lossless_packet` and `tox_friend_send_lossy_packet`
unfoldable pub tox_send : Env → ℕ → SendTox → List ℕ → Exec Bool
tox_send env friend mode bytes = do
  now ← tick
  act (Action.packet_sent friend mode bytes (env.send_status now friend mode bytes))
  pure (env.send_status now friend mode bytes)
