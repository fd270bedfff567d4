-- ===== src/Tests/Windows.antt =====
-- The backend for Windows.
use mathlib.Core.List.{reverse}
use lib_tox_tun.Base.{
  ℕ, ◌+◌, ◌*◌, ◌/◌, ◌%◌, ◌≡◌, refl, true, false, none, some, List, [], ◌∷◌, ◌++◌, All, arith, ◌==◌,
  ◌⊎◌,
}
use lib_tox_tun.Errors.{ToxTunError, thrown, ok, err, error}
use lib_tox_tun.Data.{from_tun_data, get_ip_data}
use lib_tox_tun.Sockets.{inet, other_family}
use lib_tox_tun.TunWin.{
  TunWin, WinApi, ReadState, idle, queued, ready, done, io_pending, overlapped_done, is_ready,
  set_bytes_read, data_pending, get_data_backend, send_data, key_opened, key_closed, device_opened,
  media_status_set,
}
use lib_tox_tun.TunWin.Reading.{
  IsConsistent, IsStale, data_pending-IsConsistent, get_data_backend-pending,
  get_data_backend-get_data_backend,
}
use lib_tox_tun.TunWin.Writing.{Stops, send_data-keeps}
use lib_tox_tun.TunWin.Adapter.{AdapterApi, unit, construct, get_adapter_index, set_ip}
use lib_tox_tun.TunWin.Adapter.Devices.{visited, construct-opens}
use lib_tox_tun.TunWin.Adapter.Address.{IsHtonl, after_add, set_ip-adds}
use lib_tox_tun.Scenario.{data_of}

-- The request `i` reads the one byte `i`. Reads succeed at once until the clock 10, and writes wait.
abbrev busy : WinApi
busy = record {
  frame = λ i. i ∷ [];
  read_file = λ now. elim (now == 13) [ true ↦ io_pending | false ↦ done ];
  read_completed = λ now. true;
  read_early = λ now. false;
  overlapped_result = λ now. overlapped_done;
  write_file = λ now. io_pending;
  write_completed = λ now i. i == 3;
}

-- The request 4 was read.
abbrev device : ReadState → ℕ → TunWin
device state clock = record {
  dev_guid = "tap";
  ip_api_context = 0;
  read_buffer = 4 ∷ 0 ∷ 0 ∷ [];
  bytes_read = 1;
  read_state = state;
  overlapped_read = 4;
  overlapped_write = 5 ∷ 3 ∷ [];
  ip_is_set = false;
  clock = clock;
  actions = [];
}

data_pending-IsConsistent_example :
    (is_ready (data_pending busy (device queued 10)).1.read_state ≡ true)
    × (IsConsistent busy (data_pending busy (device queued 10)).1
        ⊎ IsStale busy (device queued 10) (data_pending busy (device queued 10)).1)
unfolding data_pending set_bytes_read
data_pending-IsConsistent_example = data_pending-IsConsistent busy (device queued 10) true tt refl

get_data_backend-pending_example :
    (get_data_backend busy (device ready 13)).0 ≡ from_tun_data (4 ∷ [])
get_data_backend-pending_example =
    get_data_backend-pending busy (device ready 13) refl refl refl refl

get_data_backend-get_data_backend_example :
    ((get_data_backend busy (device ready 10)).0 ≡ from_tun_data (5 ∷ []))
    × ((get_data_backend busy (get_data_backend busy (device ready 10)).1).0
        ≡ from_tun_data (5 ∷ []))
get_data_backend-get_data_backend_example =
    get_data_backend-get_data_backend busy (device ready 10) refl refl refl refl refl

send_data-keeps_example :
    ((send_data busy (data_of (200 ∷ 1 ∷ [])) (device idle 10)).0 ≡ ok tt)
    × ((popped : List ℕ) × (reverse (10 ∷ 5 ∷ 3 ∷ [])
          ≡ popped
            ++ reverse
                (send_data busy (data_of (200 ∷ 1 ∷ [])) (device idle 10)).1.overlapped_write)
        × All (λ i. (i == 3) ≡ true) popped
        × Stops
            (λ i. i == 3)
            (reverse (send_data busy (data_of (200 ∷ 1 ∷ [])) (device idle 10)).1.overlapped_write))
unfolding get_ip_data
send_data-keeps_example =
    send_data-keeps busy (device idle 10) (data_of (200 ∷ 1 ∷ [])) (1 ∷ []) refl refl

abbrev swap_bytes : ℕ → ℕ
swap_bytes x =
    x % 256 * 16777216 + x / 256 % 256 * 65536 + x / 65536 % 256 * 256 + x / 16777216 % 256

-- One network card, and two TAP adapters of which the first is in use and the second cannot be
-- connected. Windows takes an address; one adapter has 192.168.7.1.
abbrev machine : AdapterApi
machine = record {
  reg_open = λ now. true;
  reg_entries =
      unit true (some "pci") (some "card")
      ∷ unit true (some "tap0901") (some "first")
      ∷ unit false none none
      ∷ unit true (some "tap0901") (some "second")
      ∷ [];
  create_file = λ now guid. now == 12;
  device_io_control = λ now. false;
  htonl = swap_bytes;
  adapter_index = λ now guid. some 9;
  size_known = λ now. true;
  adapter_names = λ now. none;
  add_ip_address = λ now ip index. some 77;
  adapters = λ now.
      some ((inet (record { a0 = 192; a1 = 168; a2 = 7; a3 = 1 }) ∷ other_family ∷ []) ∷ [] ∷ []);
}

construct-opens_example : construct machine (device idle 10) ≡ (
  err (error "Can't set tun device to connected"),
  record (device idle 10) {
    dev_guid = "second";
    clock = 14;
    actions =
        media_status_set true
        ∷ device_opened "second"
        ∷ key_closed
        ∷ visited machine.reg_entries (key_opened ∷ []);
  },
)
construct-opens_example =
    construct-opens machine (device idle 10) ("first" ∷ []) "second" [] refl tt refl (refl, tt) refl

swaps : IsHtonl swap_bytes
swaps b0 b1 b2 b3 h0 h1 h2 h3 = omega arith

set_ip-adds_example :
    ((index : ℕ) × ((get_adapter_index machine (device idle 10)).0 ≡ ok index)
      × (set_ip machine 3 2 (device idle 10)
          ≡ (ok tt, after_add machine 3 2 index (get_adapter_index machine (device idle 10)).1)))
    ⊎ ((e : ToxTunError) × ((get_adapter_index machine (device idle 10)).0 ≡ err (thrown e))
        × (set_ip machine 3 2 (device idle 10)
            ≡ (ok tt, (get_adapter_index machine (device idle 10)).1)))
set_ip-adds_example = set_ip-adds machine (device idle 10) 3 2 swaps (omega arith) (omega arith)
