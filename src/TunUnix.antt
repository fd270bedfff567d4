-- ===== src/TunUnix.antt =====
-- src/TunUnix.hpp and src/TunUnix.cpp, the backend for Unix, and `ipv4FromPostfix` of src/Tun.cpp.
-- What errno says in a message is left out.
pub mod Descriptors
pub mod Interface
use Prim.Native.Nat.{bit_and, bit_or}
use Prim.Native.String.{String}
use lib_tox_tun.Base.{
  ℕ, ◌+◌, ◌-◌, ◌/◌, ◌%◌, Bool, true, false, Option, none, some, List, [], ◌∷◌, ◌++◌, take, ltb,
  if◌then◌else◌,
}
use lib_tox_tun.Errors.{Result, ok, err, error}
use lib_tox_tun.Data.{Data, from_tun_data, get_ip_data, get_ip_data_len}
use lib_tox_tun.Method.{Method, pure, raise, lift, gets, modify, noexcept, ◌>>=◌, ◌>>◌}
use lib_tox_tun.Tun.{Address}
use lib_tox_tun.Sockets.{SocketAddress, add_address}

-- What an ioctl asks for. An address is given as the number that inet_addr returns.
pub data Request : Type 0 where
  tun_set_iff get_flags : Request
  set_address set_netmask set_mtu set_flags : ℕ → Request

-- What the object did with the system. An ioctl is on the interface named `ifr_name`, which is empty
-- for the request that makes one; a name that the system gave fits into IFNAMSIZ.
pub data UnixAction : Type 0 where
  fd_opened fd_closed : ℕ → UnixAction
  ioctl_called : (fd : Option ℕ) (ifr_name : String) (request : Request) → UnixAction
  frame_written : (fd : ℕ) (frame : List ℕ) → UnixAction

-- The fields, the number of system calls so far, and the actions, latest first.
pub record TunUnix : Type 0 where
  pub fd : ℕ
  pub name : String
  pub clock : ℕ
  pub actions : List UnixAction

-- The system calls; `none` is a failure, and an answer may depend on the clock. The addresses of
-- `interfaces` are those of getifaddrs, `none` for a null pointer.
pub record UnixApi : Type 0 where
  pub max_packet : ℕ
  pub open_tun : ℕ → Option ℕ
  pub interface_name : ℕ → Option String
  pub socket : ℕ → Option ℕ
  pub ioctl : ℕ → Request → Bool
  pub flags : ℕ → Option ℕ
  pub inet_addr : List ℕ → ℕ
  pub interfaces : ℕ → Option (List (Option SocketAddress))
  pub select : ℕ → Option Bool
  pub read : ℕ → Option (List ℕ)
  pub write : ℕ → List ℕ → Bool

abbrev tick : Method TunUnix ℕ
tick t = (ok t.clock, record t { clock = t.clock + 1 })

abbrev act : UnixAction → Method TunUnix (Unit {0})
act a t = (ok tt, record t { actions = a ∷ t.actions })

-- A byte in decimal digits.
unfoldable pub decimal : ℕ → List ℕ
decimal n =
    if ltb n 10
    then (48 + n) ∷ []
    else if ltb n 100
    then (48 + n / 10) ∷ (48 + n % 10) ∷ []
    else (48 + n / 100) ∷ (48 + n / 10 % 10) ∷ (48 + n % 10) ∷ []

-- "192.168."
abbrev prefix : List ℕ
prefix = 49 ∷ 57 ∷ 50 ∷ 46 ∷ 49 ∷ 54 ∷ 56 ∷ 46 ∷ []

-- TunInterface::ipv4FromPostfix, in code points.
unfoldable pub ipv4_from_postfix : ℕ → ℕ → List ℕ
unfolding decimal
ipv4_from_postfix subnet postfix = prefix ++ (decimal subnet ++ (46 ∷ decimal postfix))

-- "255.255.255.0"
abbrev pub netmask : List ℕ
netmask = 50 ∷ 53 ∷ 53 ∷ 46 ∷ 50 ∷ 53 ∷ 53 ∷ 46 ∷ 50 ∷ 53 ∷ 53 ∷ 46 ∷ 48 ∷ []

-- IFF_UP and IFF_RUNNING of <linux/if.h>
abbrev pub iff_up : ℕ
iff_up = 0x1

abbrev pub iff_running : ℕ
iff_running = 0x40

-- `flags |= IFF_UP | IFF_RUNNING`
unfoldable pub raised : ℕ → ℕ
raised flags = bit_or flags (bit_or iff_up iff_running)

-- `flags &= ~IFF_UP & ~IFF_RUNNING`, on the 16 bits of `ifr_flags`
unfoldable pub lowered : ℕ → ℕ
lowered flags = bit_and flags (bit_and (65535 - iff_up) (65535 - iff_running))

-- `ifr_mtu = TOX_MAX_CUSTOM_PACKET_SIZE - 18 - 1`
abbrev pub mtu : ℕ → ℕ
mtu max_packet = max_packet - 18 - 1

-- The loop of getUsedIp4Addresses.
abbrev add_interface : Option SocketAddress → List Address → List Address
add_interface none used = used
add_interface (some a) used = add_address a used

unfoldable pub of_interfaces : List (Option SocketAddress) → List Address
of_interfaces [] = []
of_interfaces (a ∷ l) = add_interface a (of_interfaces l)

module _ (api : UnixApi) where
  -- `socket(AF_INET, SOCK_STREAM, 0)`, whose failure is not tested.
  abbrev opened : Option ℕ → Method TunUnix (Option ℕ)
  opened none = pure none
  opened (some fd) = do act (fd_opened fd); pure (some fd)

  abbrev open_socket : Method TunUnix (Option ℕ)
  open_socket = do now ← tick; opened (api.socket now)

  abbrev close : Option ℕ → Method TunUnix (Unit {0})
  close none = pure tt
  close (some fd) = act (fd_closed fd)

  abbrev call : Option ℕ → Request → Method TunUnix Bool
  call fd request = do
    ifr_name ← gets (λ t. t.name)
    now ← tick
    act (ioctl_called fd ifr_name request)
    pure (api.ioctl now request)

  -- `ioctl(fd, SIOCGIFFLAGS, &ifr)`
  abbrev read_flags : Option ℕ → Method TunUnix (Option ℕ)
  read_flags fd = do
    ifr_name ← gets (λ t. t.name)
    now ← tick
    act (ioctl_called fd ifr_name get_flags)
    pure (api.flags now)

  -- What `setIp` and `shutdown` do with the flags, if they could be read.
  abbrev write_flags : Option ℕ → (ℕ → ℕ) → Option ℕ → Method TunUnix (Unit {0})
  write_flags fd change none = close fd
  write_flags fd change (some flags) = do success ← call fd (set_flags (change flags)); close fd

  abbrev name_device : ℕ → Option String → Method TunUnix (Unit {0})
  name_device fd none = do act (fd_closed fd); raise (error "ioctl failed")
  name_device fd (some name) = modify (λ t. record t { name = name })

  abbrev set_up : Option ℕ → Method TunUnix (Unit {0})
  set_up none = raise (error "Error while opening /dev/net/tun")
  set_up (some fd) = do
    act (fd_opened fd)
    modify (λ t. record t { fd = fd })
    now ← tick
    act (ioctl_called (some fd) "" tun_set_iff)
    name_device fd (api.interface_name now)

  -- TunUnix::TunUnix
  unfoldable pub construct : Method TunUnix (Unit {0})
  construct = do now ← tick; set_up (api.open_tun now)

  -- TunUnix::shutdown
  unfoldable pub shutdown : Method TunUnix (Unit {0})
  shutdown = do socket ← open_socket; flags ← read_flags socket; write_flags socket lowered flags

  -- TunUnix::~TunUnix
  unfoldable pub destroy : Method TunUnix (Unit {0})
  destroy = noexcept (do shutdown; fd ← gets (λ t. t.fd); act (fd_closed fd))

  -- TunUnix::setIp
  unfoldable pub set_ip : ℕ → ℕ → Method TunUnix (Unit {0})
  set_ip subnet postfix = noexcept (do
    socket ← open_socket
    success ← call socket (set_address (api.inet_addr (ipv4_from_postfix subnet postfix)))
    success ← call socket (set_netmask (api.inet_addr netmask))
    success ← call socket (set_mtu (mtu api.max_packet))
    flags ← read_flags socket
    write_flags socket raised flags)

  abbrev used_of : Option (List (Option SocketAddress)) → Result (List Address)
  used_of none = err (error "Can't get used IP addresses")
  used_of (some l) = ok (of_interfaces l)

  -- TunUnix::getUsedIp4Addresses
  unfoldable pub get_used_ip4_addresses : Method TunUnix (List Address)
  get_used_ip4_addresses = do now ← tick; lift (used_of (api.interfaces now))

  -- A select that fails leaves the descriptor in the set.
  abbrev is_set : Option Bool → Bool
  is_set none = true
  is_set (some b) = b

  -- TunUnix::dataPending
  unfoldable pub data_pending : Method TunUnix Bool
  data_pending = do now ← tick; pure (is_set (api.select now))

  abbrev buffer_size : ℕ
  buffer_size = 1500 + 18

  abbrev data_of : Option (List ℕ) → Result Data
  data_of none = err (error "Reading from TUN returns -1")
  data_of (some bytes) = from_tun_data (take buffer_size bytes)

  -- TunUnix::getDataBackend. `read` returns at most as many bytes as the buffer has.
  unfoldable pub get_data_backend : Method TunUnix Data
  get_data_backend = do now ← tick; lift (data_of (api.read now))

  -- TunUnix::sendData
  unfoldable pub send_data : Data → Method TunUnix (Unit {0})
  send_data d = do
    frame ← lift (get_ip_data d)
    now ← tick
    fd ← gets (λ t. t.fd)
    act (frame_written fd (take (get_ip_data_len d) frame))
    if api.write now (take (get_ip_data_len d) frame)
        then pure tt
        else raise (error "Writing to tun failed")
