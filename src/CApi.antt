-- ===== src/CApi.antt =====
-- src/ToxTunC.cpp and src/ToxTunC.h: the C interface. A handle is the number of a core; the static
-- variables of the file are fields of the state.
pub mod LastError
use lib_tox_tun.Base.{ℕ, Bool, true, false, Option, none, some, List}
use lib_tox_tun.Errors.{Message, text, Result, ok, err, thrown, undefined}
use lib_tox_tun.Assoc.{find, erase, emplace, assign}
use lib_tox_tun.World.{
  World, Env, Event, connection_requested, connection_accepted, connection_rejected,
  connection_closed, ConnectionState, is_connected, ringing_at_friend, friend_is_ringing,
  disconnected,
}
use lib_tox_tun.World.Exec.{Exec}
use lib_tox_tun.Core.{
  set_callback, iterate_all, send_request, accept_connection, reject_connection, close_connection,
  get_connection_state,
}

-- enum toxtun_event
pub data ToxtunEvent : Type 0 where
  toxtun_connection_requested toxtun_connection_accepted : ToxtunEvent
  toxtun_connection_rejected toxtun_connection_closed : ToxtunEvent

-- enum toxtun_connection_state
pub data ToxtunConnectionState : Type 0 where
  toxtun_connected toxtun_disconnected : ToxtunConnectionState
  toxtun_ringing_at_friend toxtun_friend_is_ringing : ToxtunConnectionState

-- `errorStrings`, `errorCStrings` and `cCallback`, with the cores.
pub record CState : Type 0 where
  pub cores : List (ℕ × World)
  pub error_strings : List (ℕ × Message)
  pub error_c_strings : List (ℕ × Message)
  pub c_callback : Option ℕ

-- A call of the C function that the program set.
pub record CCall : Type 0 where
  pub function : ℕ
  pub event : ToxtunEvent
  pub friend : ℕ
  pub user_data : ℕ

-- `map[k] = v`
unfoldable pub put : ℕ → Message → List (ℕ × Message) → List (ℕ × Message)
put k v m = elim (find k m) [ none ↦ emplace k v m | some u ↦ assign k v m ]

abbrev c_event : Event → ToxtunEvent
c_event connection_requested = toxtun_connection_requested
c_event connection_accepted = toxtun_connection_accepted
c_event connection_rejected = toxtun_connection_rejected
c_event connection_closed = toxtun_connection_closed

-- What is called when a core calls the function it was given. `none` is no call.
unfoldable pub intermediate_callback : Event → ℕ → ℕ → CState → Option CCall
intermediate_callback event friend user_data s = elim s.c_callback [
  | none ↦ none
  | some function ↦ some (record {
    function = function;
    event = c_event event;
    friend = friend;
    user_data = user_data;
  })
]

abbrev step : {A : Type 0} → ℕ → Result A × World → CState → Result A × CState
step handle (r, w) s = (r, record s { cores = assign handle w s.cores })

-- A method of the core behind the handle; a handle that is none is undefined.
unfoldable pub on_core : {A : Type 0} → ℕ → Exec A → CState → Result A × CState
on_core handle m s = elim (find handle s.cores) [
  | none ↦ (err undefined, s)
  | some w ↦ step handle (m w) s
]

-- `try { ... } catch (ToxTunError &error) { errorStrings[toxtun] = error.what(); return false; }`
abbrev or_keep : ℕ → Result (Unit {0}) × CState → Result Bool × CState
or_keep handle (ok a, s) = (ok true, s)
or_keep handle (err (thrown e), s) =
    (ok false, record s { error_strings = put handle e.message s.error_strings })
or_keep handle (err e, s) = (err e, s)

-- The function that every core is given, as a number.
abbrev pub intermediate : ℕ
intermediate = 0

unfoldable pub toxtun_set_callback : ℕ → Option ℕ → ℕ → CState → Result (Unit {0}) × CState
toxtun_set_callback handle cb user_data s =
    on_core handle (set_callback (some intermediate) user_data) (record s { c_callback = cb })

abbrev c_state : ConnectionState → ToxtunConnectionState
c_state is_connected = toxtun_connected
c_state disconnected = toxtun_disconnected
c_state ringing_at_friend = toxtun_ringing_at_friend
c_state friend_is_ringing = toxtun_friend_is_ringing

unfoldable pub toxtun_get_connection_state : ℕ → ℕ → CState → Result ToxtunConnectionState
toxtun_get_connection_state handle friend s = elim (find handle s.cores) [
  | none ↦ err undefined
  | some w ↦ ok (c_state (get_connection_state friend w))
]

abbrev last_error : Option Message → Message
last_error none = text "No error"
last_error (some m) = m

-- The string that is returned is the one kept for the handle.
unfoldable pub toxtun_get_last_error : ℕ → CState → Message × CState
toxtun_get_last_error handle s = (
  last_error (find handle s.error_strings),
  record s {
    error_strings = erase handle s.error_strings;
    error_c_strings = put handle (last_error (find handle s.error_strings)) s.error_c_strings;
  },
)

module _ (env : Env) where
  unfoldable pub toxtun_iterate : ℕ → ℕ → CState → Result (Unit {0}) × CState
  toxtun_iterate handle fuel s = on_core handle (iterate_all env fuel) s

  unfoldable pub toxtun_send_connection_request : ℕ → ℕ → CState → Result Bool × CState
  toxtun_send_connection_request handle friend s =
      or_keep handle (on_core handle (send_request env friend) s)

  unfoldable pub toxtun_accept_connection : ℕ → ℕ → CState → Result Bool × CState
  toxtun_accept_connection handle friend s =
      or_keep handle (on_core handle (accept_connection env friend) s)

  unfoldable pub toxtun_reject_connection : ℕ → ℕ → CState → Result (Unit {0}) × CState
  toxtun_reject_connection handle friend s = on_core handle (reject_connection env friend) s

  unfoldable pub toxtun_close_connection : ℕ → ℕ → CState → Result (Unit {0}) × CState
  toxtun_close_connection handle friend s = on_core handle (close_connection env friend) s
