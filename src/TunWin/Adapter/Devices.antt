-- ===== src/TunWin/Adapter/Devices.antt =====
-- src/TunWin.cpp: which device the constructor opens, and what happens to its handle.
use Prim.Native.String.{String}
use text.Mathlib.Text.{◌==◌}
use lib_tox_tun.Base.{
  ℕ, ◌+◌, ◌≡◌, refl, Bool, true, false, none, some, List, [], ◌∷◌, ◌++◌, length, arith,
  if◌then◌else◌, Bool-cases, inl, inr,
}
use lib_tox_tun.Errors.{ok, err, error}
use lib_tox_tun.TunWin.{
  TunWin, WinAction, key_opened, key_closed, device_opened, handle_closed, media_status_set,
  ip_deleted,
}
use lib_tox_tun.TunWin.Adapter.{
  RegEntry, enum_failed, unit, AdapterApi, find_devices, open_device, construct, unset_ip, destroy,
}

-- The registry can be enumerated.
abbrev pub Enumerable : List RegEntry → Type 0
Enumerable [] = Unit {0}
Enumerable (enum_failed ∷ es) = ⊥
Enumerable (unit opens component guid ∷ es) = Enumerable es

-- The identifiers of the TAP adapters among the subkeys, in their order.
abbrev pub taps : List RegEntry → List String
taps [] = []
taps (unit true (some component) (some guid) ∷ es) =
    if component == "tap0901" then guid ∷ taps es else taps es
taps (_ ∷ es) = taps es

-- What is done for the subkeys, before what was done already: each that opens is closed.
abbrev pub visited : List RegEntry → List WinAction → List WinAction
visited [] actions = actions
visited (unit true component guid ∷ es) actions = visited es (key_closed ∷ key_opened ∷ actions)
visited (_ ∷ es) actions = visited es actions

find_devices-taps :
    (es : List RegEntry) (t : TunWin)
    → Enumerable es
    → find_devices es t ≡ (ok (taps es), record t { actions = visited es t.actions })
unfolding find_devices
find_devices-taps [] t h = refl
find_devices-taps (enum_failed ∷ es) t h = absurd h
find_devices-taps (unit false none none ∷ es) t h = find_devices-taps es t h
find_devices-taps (unit false none (some guid) ∷ es) t h = find_devices-taps es t h
find_devices-taps (unit false (some c) none ∷ es) t h = find_devices-taps es t h
find_devices-taps (unit false (some c) (some guid) ∷ es) t h = find_devices-taps es t h
find_devices-taps (unit true none none ∷ es) t h =
    find_devices-taps es (record t { actions = key_closed ∷ key_opened ∷ t.actions }) h
find_devices-taps (unit true none (some guid) ∷ es) t h =
    find_devices-taps es (record t { actions = key_closed ∷ key_opened ∷ t.actions }) h
find_devices-taps (unit true (some c) none ∷ es) t h =
    rw (find_devices-taps es (record t { actions = key_closed ∷ key_opened ∷ t.actions }) h)
find_devices-taps (unit true (some c) (some guid) ∷ es) t h =
    rw (find_devices-taps es (record t { actions = key_closed ∷ key_opened ∷ t.actions }) h)

module _ (api : AdapterApi) where
  -- None of the devices can be opened, from the clock `n` on.
  abbrev pub Refused : ℕ → List String → Type 0
  Refused n [] = Unit {0}
  Refused n (guid ∷ guids) = (api.create_file n guid ≡ false) × Refused (n + 1) guids

  open_device-first :
      (skipped : List String) (guid : String) (guids : List String) (t : TunWin)
      → Refused t.clock skipped
      → api.create_file (t.clock + length skipped) guid ≡ true
      → open_device api (skipped ++ guid ∷ guids) t ≡ (
        ok (some guid),
        record t {
          dev_guid = guid;
          clock = t.clock + length skipped + 1;
          actions = device_opened guid ∷ t.actions;
        },
      )
  unfolding open_device
  open_device-first [] guid guids t h opens =
      let a : t.clock + 0 ≡ t.clock = omega arith in rw (a, rw a at opens)
  open_device-first (g ∷ skipped) guid guids t (refused, h) opens =
      let a : t.clock + length (g ∷ skipped) ≡ t.clock + 1 + length skipped = omega arith in
      rw (refused, a)
        (open_device-first skipped guid guids (record t { clock = t.clock + 1 }) h (rw a at opens))

  -- The constructor opens the first TAP adapter of the registry that can be opened and sets its
  -- media status. If that fails it throws, and the device is still open: no destructor will close
  -- the handle.
  pub construct-opens :
      (t : TunWin) (skipped : List String) (guid : String) (guids : List String)
      → api.reg_open t.clock ≡ true
      → Enumerable api.reg_entries
      → taps api.reg_entries ≡ skipped ++ guid ∷ guids
      → Refused (t.clock + 1) skipped
      → api.create_file (t.clock + 1 + length skipped) guid ≡ true
      → construct api t ≡ (
        if api.device_io_control (t.clock + 1 + length skipped + 1)
            then ok tt
            else err (error "Can't set tun device to connected"),
        record t {
          dev_guid = guid;
          clock = t.clock + 1 + length skipped + 1 + 1;
          actions =
              media_status_set true
              ∷ device_opened guid
              ∷ key_closed
              ∷ visited api.reg_entries (key_opened ∷ t.actions);
        },
      )
  unfolding construct
  construct-opens t skipped guid guids opens lists are refused first =
      let t1 : TunWin = record t { clock = t.clock + 1; actions = key_opened ∷ t.actions } in
      let t2 : TunWin = record t1 {
        actions = key_closed ∷ visited api.reg_entries (key_opened ∷ t.actions);
      } in
      let found = find_devices-taps api.reg_entries t1 lists in
      rw (opens, found, are, open_device-first skipped guid guids t2 refused first)
        (elim (Bool-cases (api.device_io_control (t.clock + 1 + length skipped + 1))) [
          | inl sets ↦ rw sets
          | inr fails ↦ rw fails
        ])

  -- The address that was set is deleted.
  abbrev pub without_ip : Bool → TunWin → TunWin
  without_ip false t = t
  without_ip true t = record t {
    ip_is_set = false;
    clock = t.clock + 1;
    actions = ip_deleted t.ip_api_context ∷ t.actions;
  }

  abbrev pub disconnected : Bool → TunWin → TunWin
  disconnected closes t = record t {
    clock = t.clock + 1;
    actions =
        if closes
        then handle_closed ∷ media_status_set false ∷ t.actions
        else media_status_set false ∷ t.actions;
  }

  -- The destructor deletes the address that was set. It closes the handle only if the media status
  -- can be set; else the handle stays open.
  pub destroy-disconnects :
      (t : TunWin)
      → destroy api t ≡ (
        ok tt,
        disconnected
            (api.device_io_control (without_ip t.ip_is_set t).clock)
            (without_ip t.ip_is_set t),
      )
  unfolding destroy unset_ip
  destroy-disconnects t = elim (Bool-cases t.ip_is_set) [
    | inl set ↦ elim (Bool-cases (api.device_io_control (t.clock + 1))) [
      | inl sets ↦ rw (set, sets)
      | inr fails ↦ rw (set, fails)
    ]
    | inr unset ↦ elim (Bool-cases (api.device_io_control t.clock)) [
      | inl sets ↦ rw (unset, sets)
      | inr fails ↦ rw (unset, fails)
    ]
  ]
