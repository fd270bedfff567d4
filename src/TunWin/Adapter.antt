-- ===== src/TunWin/Adapter.antt =====
-- src/TunWin.cpp: the constructor and the destructor, which find, open and close a device, the
-- address of the adapter, and the addresses in use.
pub mod Devices
pub mod Index
pub mod Address
use Prim.Native.Nat.{bit_or}
use Prim.Native.String.{String}
use text.Mathlib.Text.{◌==◌}
use lib_tox_tun.Base.{
  ℕ, ◌+◌, ◌*◌, ◌%◌, Bool, true, false, Option, none, some, List, [], ◌∷◌, if◌then◌else◌,
}
use lib_tox_tun.Errors.{Fault, Result, ok, err, error}
use lib_tox_tun.Method.{Method, pure, raise, lift, gets, modify, try_catch, noexcept, ◌>>=◌, ◌>>◌}
use lib_tox_tun.Tun
use lib_tox_tun.Sockets.{SocketAddress, add_address}
use lib_tox_tun.TunWin.{
  TunWin, tick, act, key_opened, key_closed, device_opened, handle_closed, media_status_set,
  ip_added, ip_deleted,
}

-- A subkey of the adapters' key in the registry: whether it can be opened, and its values
-- ComponentId and NetCfgInstanceId, if they are strings.
pub data RegEntry : Type 0 where
  enum_failed : RegEntry
  unit : (opens : Bool) (component_id net_cfg_instance_id : Option String) → RegEntry

-- The Win32 API of this file; an answer may depend on the clock. `adapter_names` are the names and
-- indices that GetAdaptersInfo lists, `adapters` the addresses that GetAdaptersAddresses lists;
-- `htonl` puts the bytes of a 32-bit number in network order.
pub record AdapterApi : Type 0 where
  pub reg_open : ℕ → Bool
  pub reg_entries : List RegEntry
  pub create_file : ℕ → String → Bool
  pub device_io_control : ℕ → Bool
  pub htonl : ℕ → ℕ
  pub adapter_index : ℕ → String → Option ℕ
  pub size_known : ℕ → Bool
  pub adapter_names : ℕ → Option (List (String × ℕ))
  pub add_ip_address : ℕ → ℕ → ℕ → Option ℕ
  pub adapters : ℕ → Option (List (List SocketAddress))

-- `if (!strcmp(componentId, "tap0901")) devGuids.emplace_back(netCfgInstanceId);`
abbrev add_device : Option String → String → List String → List String
add_device none component guids = guids
add_device (some guid) component guids = if component == "tap0901" then guid ∷ guids else guids

-- The loop over the subkeys.
pub find_devices : List RegEntry → Method TunWin (List String)
find_devices [] = pure []
find_devices (enum_failed ∷ es) =
    raise (error "Error while reading registry subkeys of the network adapters")
find_devices (unit false component guid ∷ es) = find_devices es
find_devices (unit true none guid ∷ es) = do act key_opened; act key_closed; find_devices es
find_devices (unit true (some component) guid ∷ es) = do
  act key_opened
  act key_closed
  guids ← find_devices es
  pure (add_device guid component guids)

-- The inner loop of getUsedIp4Addresses.
unfoldable pub of_adapter : List SocketAddress → List Tun.Address → List Tun.Address
of_adapter [] used = used
of_adapter (a ∷ l) used = add_address a (of_adapter l used)

-- The outer loop.
unfoldable pub of_adapters : List (List SocketAddress) → List Tun.Address
unfolding of_adapter
of_adapters [] = []
of_adapters (a ∷ l) = of_adapter a (of_adapters l)

-- `0xc0a80000 | (static_cast<uint32_t>(subnet) << 8) | postfix`
unfoldable pub ip_of : ℕ → ℕ → ℕ
ip_of subnet postfix = bit_or (bit_or 0xc0a80000 (subnet * 256)) postfix

module _ (api : AdapterApi) where
  -- The loop that opens the first device that it can. `none` is INVALID_HANDLE_VALUE.
  pub open_device : List String → Method TunWin (Option String)
  open_device [] = pure none
  open_device (guid ∷ guids) = do
    now ← tick
    elim (api.create_file now guid) [
      | true ↦ do
        act (device_opened guid)
        modify (λ t. record t { dev_guid = guid })
        pure (some guid)
      | false ↦ open_device guids
    ]

  -- `DeviceIoControl(handle, TAP_WIN_IOCTL_SET_MEDIA_STATUS, ...)`
  abbrev set_media_status : Bool → Method TunWin Bool
  set_media_status status = do
    now ← tick
    act (media_status_set status)
    pure (api.device_io_control now)

  abbrev connect : Option String → Method TunWin (Unit {0})
  connect none = raise (error "Can't open a tun device")
  connect (some guid) = do
    status ← set_media_status true
    if status then pure tt else raise (error "Can't set tun device to connected")

  -- TunWin::TunWin
  unfoldable pub construct : Method TunWin (Unit {0})
  unfolding find_devices open_device
  construct = do
    now ← tick
    if api.reg_open now
        then (do
          act key_opened
          guids ← find_devices api.reg_entries
          act key_closed
          guid ← open_device guids
          connect guid)
        else raise (error "Can't open registry key of the network adapters")

  abbrev remove_ip : Bool → Method TunWin (Unit {0})
  remove_ip false = pure tt
  remove_ip true = do
    now ← tick
    context ← gets (λ t. t.ip_api_context)
    act (ip_deleted context)
    modify (λ t. record t { ip_is_set = false })

  -- TunWin::unsetIp. A failure of DeleteIPAddress is only logged.
  unfoldable pub unset_ip : Method TunWin (Unit {0})
  unset_ip = do is_set ← gets (λ t. t.ip_is_set); remove_ip is_set

  -- TunWin::~TunWin
  unfoldable pub destroy : Method TunWin (Unit {0})
  destroy =
      noexcept (do
        unset_ip
        status ← set_media_status false
        if status then act handle_closed else pure tt)

  abbrev pub index_of : String → List (String × ℕ) → Result ℕ
  index_of guid [] = err (error "No matching adapter in IP_ADAPTER_INFO")
  index_of guid ((name, index) ∷ infos) = if guid == name then ok index else index_of guid infos

  abbrev pub listed : String → Option (List (String × ℕ)) → Result ℕ
  listed guid none = err (error "GetAdapterInfo failed")
  listed guid (some infos) = index_of guid infos

  abbrev look_up : Option ℕ → Method TunWin ℕ
  look_up (some index) = pure index
  look_up none = do
    asking ← tick
    if api.size_known asking
        then (do
          now ← tick
          guid ← gets (λ t. t.dev_guid)
          lift (listed guid (api.adapter_names now)))
        else raise (error "GetAdapterInfo (size) failed")

  -- TunWin::getAdapterIndex
  unfoldable pub get_adapter_index : Method TunWin ℕ
  get_adapter_index = do
    now ← tick
    guid ← gets (λ t. t.dev_guid)
    look_up (api.adapter_index now guid)

  abbrev keep_context : Option ℕ → Method TunWin (Unit {0})
  keep_context none = raise (error "AddIpAddress failed")
  keep_context (some context) =
      modify (λ t. record t { ip_api_context = context; ip_is_set = true })

  -- TunWin::setIp
  unfoldable pub set_ip : ℕ → ℕ → Method TunWin (Unit {0})
  set_ip subnet postfix = noexcept (
      try_catch
        (do
          index ← get_adapter_index
          now ← tick
          act (ip_added (api.htonl (ip_of subnet postfix)) (api.htonl 0xFFFFFF00) index)
          keep_context (api.add_ip_address now (api.htonl (ip_of subnet postfix)) index))
        (pure tt))

  abbrev used_of : Option (List (List SocketAddress)) → Result (List Tun.Address)
  used_of none = err (error "GetAdapterAddresses failed")
  used_of (some l) = ok (of_adapters l)

  -- TunWin::getUsedIp4Addresses
  unfoldable pub get_used_ip4_addresses : Method TunWin (List Tun.Address)
  get_used_ip4_addresses = do
    asking ← tick
    if api.size_known asking
        then (do now ← tick; lift (used_of (api.adapters now)))
        else raise (error "GetAdapterAddresses (size) failed")
