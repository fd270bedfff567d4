-- ===== src/Tests/CInterface.antt =====
-- The C interface.
use lib_tox_tun.Base.{◌≡◌, arith, refl, [], ◌∷◌, false, none}
use lib_tox_tun.Errors.{text, ok}
use lib_tox_tun.Assoc.{find}
use lib_tox_tun.World.{connected}
use lib_tox_tun.Core.{send_request}
use lib_tox_tun.CApi.{CState, toxtun_send_connection_request}
use lib_tox_tun.CApi.LastError.{asked_twice, toxtun_get_last_error-toxtun_send_connection_request}
use lib_tox_tun.Scenario.{calm, one_friend}

-- One core, of handle 5; an older error is kept.
abbrev one_core : CState
one_core = record {
  cores = (5, one_friend connected) ∷ [];
  error_strings = (5, text "older") ∷ [];
  error_c_strings = [];
  c_callback = none;
}

toxtun_get_last_error-toxtun_send_connection_request_example :
    asked_twice 5 (toxtun_send_connection_request calm 5 7 one_core)
    ≡ (ok false, text "You have allready an open connection to this friend", text "No error")
unfolding find send_request
toxtun_get_last_error-toxtun_send_connection_request_example =
    toxtun_get_last_error-toxtun_send_connection_request calm 5 7 one_core (one_friend connected)
      (one_friend connected)
      (record {
        message = text "You have allready an open connection to this friend";
        silent = false;
      })
      refl (omega arith) refl
