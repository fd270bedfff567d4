-- ===== src/Tun.antt =====
-- src/Tun.hpp and src/Tun.cpp, the part of `TunInterface` that both platforms share. A frame is
-- the buffer that `getIpData` returns; a read behind its end is `undefined`.
pub mod Bits
pub mod Filter
pub mod Subnet
pub mod Ending
use Prim.Native.Nat.{bit_and, bit_or}
use lib_tox_tun.Base.{
  ℕ, ◌+◌, ◌*◌, ◌%◌, ◌^◌, Bool, true, false, not, ◌&&◌, ◌||◌, Option, none, some, List, [], ◌∷◌,
  get_elem?, ltb, leb, ◌==◌, if◌then◌else◌,
}
use lib_tox_tun.Errors.{
  Result, ok, err, Fault, thrown, undefined, ToxTunError, Message, text, ◌>>=◌,
}
use lib_tox_tun.Data.{Data, from_tun_data, get_ip_data, get_ip_data_len}

-- `tmp[i]`
unfoldable pub read : List ℕ → ℕ → Result ℕ
read frame i = elim (get_elem? frame i) [ none ↦ err undefined | some b ↦ ok b ]

-- `try { tmp = data.getIpData(); } catch (ToxTunError &error) { return false; }`, and the rest.
abbrev with_ip_data : Result (List ℕ) → (List ℕ → Result Bool) → Result Bool
with_ip_data (ok frame) k = k frame
with_ip_data (err (thrown e)) k = ok false
with_ip_data (err e) k = err e

-- `static_cast<uint16_t>(tmp[i]) << 8 | tmp[i + 1]`, compared with the port of tox.
unfoldable pub port_is : ℕ → List ℕ → ℕ → Result Bool
port_is tox_udp_port frame i = do
  high ← read frame i
  low ← read frame (i + 1)
  ok (bit_or (high * 256) low % 65536 == tox_udp_port)

abbrev ether_frame_offset : ℕ
ether_frame_offset = 14

-- Behind the test for fragments: find the UDP header and read its source port.
unfoldable pub ipv4_port : ℕ → ℕ → List ℕ → Result Bool
ipv4_port tox_udp_port len frame = do
  version_length ← read frame ether_frame_offset
  let ip_header_length = (bit_and version_length 0x0F * 4) % 256
  let ip_data_offset = (ether_frame_offset + ip_header_length) % 256
  if ltb len (ip_data_offset + 2) then ok false else port_is tox_udp_port frame ip_data_offset

-- A fragment that is taken for a later one, which names no port.
unfoldable pub ipv4_later : List ℕ → Result Bool
ipv4_later frame = do
  flags ← read frame (ether_frame_offset + 6)
  if bit_and flags 0x20 == 0 then ok false else (do
    offset ← read frame (ether_frame_offset + 7)
    ok (not (bit_or (bit_and flags 0x2F) offset % 256 == 0)))

unfoldable pub is_from_own_tox_ipv4 : ℕ → Data → Result Bool
is_from_own_tox_ipv4 tox_udp_port d =
    if ltb (get_ip_data_len d) (ether_frame_offset + 10)
    then ok false
    else with_ip_data (get_ip_data d) λ frame. do
      protocol ← read frame (ether_frame_offset + 9)
      if not (protocol == 0x11) then ok false else (do
        later ← ipv4_later frame
        if later then ok false else ipv4_port tox_udp_port (get_ip_data_len d) frame)

-- Behind a fragment header: the port of a first fragment.
unfoldable pub ipv6_fragment : ℕ → ℕ → List ℕ → Result Bool
ipv6_fragment tox_udp_port len frame =
    if ltb len (ether_frame_offset + 40 + 10) then ok false else do
      high ← read frame (ether_frame_offset + 42)
      low ← read frame (ether_frame_offset + 43)
      if not (bit_or high (bit_and low 0xF8) % 256 == 0) then ok false else (do
        protocol ← read frame (ether_frame_offset + 40)
        if not (protocol == 0x11)
            then ok false
            else port_is tox_udp_port frame (ether_frame_offset + 40 + 8))

unfoldable pub is_from_own_tox_ipv6 : ℕ → Data → Result Bool
is_from_own_tox_ipv6 tox_udp_port d =
    if ltb (get_ip_data_len d) (ether_frame_offset + 40)
    then ok false
    else with_ip_data (get_ip_data d) λ frame. do
      next_header ← read frame (ether_frame_offset + 6)
      if next_header == 44
          then ipv6_fragment tox_udp_port (get_ip_data_len d) frame
          else if not (next_header == 0x11)
          then ok false
          else port_is tox_udp_port frame (ether_frame_offset + 40)

unfoldable pub is_from_own_tox : ℕ → Data → Result Bool
is_from_own_tox tox_udp_port d =
    if ltb (get_ip_data_len d) 14
    then ok false
    else with_ip_data (get_ip_data d) λ frame. do
      high ← read frame 12
      low ← read frame 13
      if high == 0x08 && low == 0x00
          then is_from_own_tox_ipv4 tox_udp_port d
          else if high == 0x86 && low == 0xDD
          then is_from_own_tox_ipv6 tox_udp_port d
          else ok false

dropping : ToxTunError
dropping = record { message = text "Dropping packet from own tox instance"; silent = true }

-- `Data::fromTunData`, of what the backend read: the last step of each `getDataBackend`.
abbrev pub from_backend : Result (List ℕ) → Result Data
from_backend read_bytes = read_bytes >>= from_tun_data

-- What `getDataBackend` returned, unless it is a packet of the own tox instance.
unfoldable pub get_data : ℕ → Result Data → Result Data
unfolding dropping
get_data tox_udp_port backend = do
  d ← backend
  own ← is_from_own_tox tox_udp_port d
  if own then err (thrown dropping) else ok d

-- `std::array<uint8_t, 4>`
pub record Address : Type 0 where
  pub a0 : ℕ
  pub a1 : ℕ
  pub a2 : ℕ
  pub a3 : ℕ

unfoldable pub none_in_subnet : ℕ → List Address → Bool
none_in_subnet addr_space [] = true
none_in_subnet addr_space (addr ∷ used) =
    let rest = none_in_subnet addr_space used in
    if not (addr.a0 == 192) || not (addr.a1 == 168)
    then rest
    else if addr.a2 == addr_space
    then false
    else rest

-- The list is what `getUsedIp4Addresses` returns, which may throw.
unfoldable pub is_addrspace_unused : Result (List Address) → ℕ → Result Bool
unfolding none_in_subnet
is_addrspace_unused used addr_space = do used_ips ← used; ok (none_in_subnet addr_space used_ips)
