-- ===== src/TunUnix/Interface.antt =====
-- src/TunUnix.cpp: how the interface is set up, and the addresses in use.
use Prim.Native.Nat.{bit_and}
use mathlib.Core.Logic.{◌↔◌}
use lib_tox_tun.Base.{
  ℕ, ◌+◌, ◌-◌, ◌*◌, ◌<◌, ◌≡◌, refl, Bool, true, Option, none, some, List, [], ◌∷◌, ◌++◌, All, arith,
  length, ◌≤◌, ◌==◌, ◌&&◌, if◌then◌else◌,
}
use lib_tox_tun.Errors.{ok}
use lib_tox_tun.Data.{Data, size_mod, from_tun_data, get_tox_data_len}
use lib_tox_tun.Data.Frames.{get_ip_data-from_tun_data}
use lib_tox_tun.Tun.{is_addrspace_unused}
use lib_tox_tun.Tun.Bits.{all_below, all_below-at}
use lib_tox_tun.Sockets.{
  SocketAddress, Outside, AllOutside, add_address-Outside, is_addrspace_unused-AllOutside,
}
use lib_tox_tun.TunUnix.{
  TunUnix, UnixApi, decimal, ipv4_from_postfix, raised, lowered, of_interfaces,
  get_used_ip4_addresses, mtu,
}

-- The numbers of a text of decimal numbers with dots between, `acc` the digits read so far.
abbrev pub octets : ℕ → List ℕ → List ℕ
octets acc [] = acc ∷ []
octets acc (c ∷ cs) =
    let number = acc ∷ octets 0 cs in
    let more = octets (acc * 10 + (c - 48)) cs in if c == b'.' then number else more

octets-decimal_dot :
    (n : ℕ) (rest : List ℕ) → n < 256 → octets 0 (decimal n ++ (46 ∷ rest)) ≡ n ∷ octets 0 rest
unfolding decimal
octets-decimal_dot n rest h = ground arith

octets-decimal : (n : ℕ) → n < 256 → octets 0 (decimal n) ≡ n ∷ []
unfolding decimal
octets-decimal n h = ground arith

-- The text of `ipv4FromPostfix` reads as 192.168.subnet.postfix.
pub octets-ipv4_from_postfix :
    (subnet postfix : ℕ)
    → subnet < 256
    → postfix < 256
    → octets 0 (ipv4_from_postfix subnet postfix) ≡ 192 ∷ 168 ∷ subnet ∷ postfix ∷ []
unfolding ipv4_from_postfix
octets-ipv4_from_postfix subnet postfix s p =
    rw (octets-decimal_dot subnet (decimal postfix) s, octets-decimal postfix p)

flags_test : ℕ → Bool
flags_test f =
    bit_and (raised f) 0x41 == 0x41
    && bit_and (lowered f) 0x41 == 0
    && lowered (raised f) == lowered f
    && raised (lowered f) == raised f

flags_table : all_below 65536 flags_test ≡ true
unfolding all_below flags_test raised lowered
flags_table = refl

-- Of the 16 bits of the flags, `setIp` sets the two for up and running and `shutdown` clears them;
-- either undoes the other and leaves the other bits alone.
pub lowered-raised :
    (flags : ℕ)
    → flags < 65536
    → (bit_and (raised flags) 0x41 ≡ 0x41)
      × (bit_and (lowered flags) 0x41 ≡ 0)
      × (lowered (raised flags) ≡ lowered flags)
      × (raised (lowered flags) ≡ raised flags)
unfolding flags_test
lowered-raised flags h = ground (arith, all_below-at 65536 flags_test flags flags_table h)

abbrev pub OutsideIfAny : ℕ → Option SocketAddress → Type 0
OutsideIfAny subnet none = Unit {0}
OutsideIfAny subnet (some a) = Outside subnet a

of_interfaces-AllOutside :
    (subnet : ℕ) (l : List (Option SocketAddress))
    → AllOutside subnet (of_interfaces l) ↔ All (OutsideIfAny subnet) l
unfolding of_interfaces
of_interfaces-AllOutside subnet [] = (λ h. tt, λ h. tt)
of_interfaces-AllOutside subnet (none ∷ l) =
    let rest = of_interfaces-AllOutside subnet l in (λ h. (tt, rest.0 h), λ h. rest.1 h.1)
of_interfaces-AllOutside subnet (some a ∷ l) =
    let first = add_address-Outside subnet a (of_interfaces l) in
    let rest = of_interfaces-AllOutside subnet l in
    (λ h. let (o, r) = first.0 h in (o, rest.0 r), λ h. first.1 (h.0, rest.1 h.1))

-- With the addresses that getifaddrs lists, a subnet counts as unused exactly if no interface has
-- an IPv4 address in it.
pub is_addrspace_unused-interfaces :
    (api : UnixApi) (t : TunUnix) (subnet : ℕ) (interfaces : List (Option SocketAddress))
    → api.interfaces t.clock ≡ some interfaces
    → (is_addrspace_unused (get_used_ip4_addresses api t).0 subnet ≡ ok true)
      ↔ All (OutsideIfAny subnet) interfaces
unfolding get_used_ip4_addresses
is_addrspace_unused-interfaces api t subnet interfaces lists =
    let unused = is_addrspace_unused-AllOutside subnet (of_interfaces interfaces) in
    let outside = of_interfaces-AllOutside subnet interfaces in
    rw lists (λ h. outside.0 (unused.0 h), λ h. unused.1 (outside.1 h))

-- A frame that the interface sends with the MTU that `setIp` sets, the 18 bytes of its header and
-- trailer included, fits one tox packet.
from_tun_data-mtu :
    (max_packet : ℕ) (frame : List ℕ) (d : Data)
    → 19 ≤ max_packet
    → max_packet < size_mod
    → length frame ≤ mtu max_packet + 18
    → from_tun_data frame ≡ ok d
    → get_tox_data_len d ≤ max_packet
from_tun_data-mtu max_packet frame d room small fits e =
    let size = (get_ip_data-from_tun_data frame d (omega arith) e).3 in omega (arith, size)
