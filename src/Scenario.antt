-- ===== src/Scenario.antt =====
-- A concrete environment and states for the tests and examples.
use lib_tox_tun.Base.{ℕ, true, false, some, List, [], ◌∷◌}
use lib_tox_tun.Errors.{text}
use lib_tox_tun.Data.{Data}
use lib_tox_tun.World.{World, Env, Connection, State, negsuc, returned, failed}

abbrev pub data_of : List ℕ → Data
data_of bytes = record { bytes = bytes; tox_header_set = true }

-- 192.168.0.5 and 10.0.0.1 are in use; every call succeeds and no frame is pending.
abbrev pub calm : Env
calm = record {
  max_packet = 1373;
  send_status = λ now friend mode bytes. true;
  self_udp_port = λ now. 33445;
  open_tun = λ now. returned tt;
  used_addresses = λ now. returned (
      record { a0 = 192; a1 = 168; a2 = 0; a3 = 5 }
      ∷ record { a0 = 10; a1 = 0; a2 = 0; a3 = 1 }
      ∷ []);
  data_pending = λ now. returned false;
  read_tun = λ now. failed (record { message = text "nothing"; silent = false });
  write_tun = λ now frame. returned tt;
  elapsed_over = λ now time. false;
}

-- As `calm`, but tox refuses every packet.
abbrev pub offline : Env
offline = record calm { send_status = λ now friend mode bytes. false }

-- As `calm`, but the subnet with the number of the clock is in use.
abbrev pub crowded : Env
crowded = record calm {
  used_addresses = λ now. returned (record { a0 = 192; a1 = 168; a2 = now; a3 = 1 } ∷ []);
}

abbrev pub with_state : State → Connection
with_state state = record {
  state = state;
  fragments = [];
  connected_friend = 7;
  next_fragment_index = 0;
  subnet = negsuc 0;
  tox_udp_port = 33445;
}

abbrev pub empty_world : World
empty_world = record {
  connections = [];
  callback_function = some 1;
  callback_user_data = 2;
  clock = 0;
  actions = [];
}

-- One connection, to friend 7.
abbrev pub one_friend : State → World
one_friend state = record empty_world { connections = (7, with_state state) ∷ [] }
