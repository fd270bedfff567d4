-- ===== src/TunWin/Adapter/Address.antt =====
-- src/TunWin.cpp: the address that `setIp` sets, and the addresses in use.
use Prim.Native.Nat.{bit_or}
use mathlib.Core.Logic.{◌↔◌}
use lib_tox_tun.Base.{
  ℕ, ◌+◌, ◌*◌, ◌/◌, ◌%◌, ◌<◌, ◌≡◌, refl, Bool, true, Option, none, some, List, [], ◌∷◌, All, arith,
  ◌==◌, Option-cases, ◌⊎◌, inl, inr,
}
use lib_tox_tun.Errors.{ToxTunError, thrown, ok, err}
use lib_tox_tun.Tun.{Address, is_addrspace_unused}
use lib_tox_tun.Tun.Bits.{all_below, all_below-at}
use lib_tox_tun.Sockets.{
  SocketAddress, Outside, AllOutside, add_address-Outside, is_addrspace_unused-AllOutside,
}
use lib_tox_tun.TunWin.{TunWin, ip_added}
use lib_tox_tun.TunWin.Adapter.Index.{get_adapter_index-FoundOrThrown}
use lib_tox_tun.TunWin.Adapter.{
  AdapterApi, get_adapter_index, ip_of, set_ip, of_adapter, of_adapters, get_used_ip4_addresses,
}

ip_test : ℕ → Bool
ip_test x = bit_or (bit_or 0xc0a80000 (x / 256 * 256)) (x % 256) == 0xc0a80000 + x

ip_table : all_below 65536 ip_test ≡ true
unfolding all_below ip_test
ip_table = refl

-- The bytes of the number are 192, 168, the subnet and the postfix.
pub ip_of-bytes :
    (subnet postfix : ℕ)
    → subnet < 256
    → postfix < 256
    → ip_of subnet postfix ≡ 192 * 16777216 + 168 * 65536 + subnet * 256 + postfix
unfolding ip_of ip_test
ip_of-bytes subnet postfix s p =
    let hi : (subnet * 256 + postfix) / 256 ≡ subnet = omega arith in
    let lo : (subnet * 256 + postfix) % 256 ≡ postfix = omega arith in
    let table : ip_test (subnet * 256 + postfix) ≡ true =
      all_below-at 65536 ip_test (subnet * 256 + postfix) ip_table (omega arith) in
    ground (arith, rw (hi, lo) at table)

-- Windows does not say that an address was set.
abbrev pub added : Option ℕ → TunWin → TunWin
added none t = t
added (some context) t = record t { ip_api_context = context; ip_is_set = true }

-- On a little-endian machine, such as those that run Windows, `htonl` swaps the bytes of a number.
abbrev pub IsHtonl : (ℕ → ℕ) → Type 0
IsHtonl htonl =
    (b0 b1 b2 b3 : ℕ)
    → b0 < 256
    → b1 < 256
    → b2 < 256
    → b3 < 256
    → htonl (b3 * 16777216 + b2 * 65536 + b1 * 256 + b0)
      ≡ b0 * 16777216 + b1 * 65536 + b2 * 256 + b3

-- The address 192.168.subnet.postfix in network order, as a number of a little-endian machine.
abbrev pub network_ip : ℕ → ℕ → ℕ
network_ip subnet postfix = postfix * 16777216 + subnet * 65536 + 168 * 256 + 192

-- The object after AddIPAddress was called for the adapter `index`, with the netmask 255.255.255.0.
abbrev pub after_add : AdapterApi → ℕ → ℕ → ℕ → TunWin → TunWin
after_add api subnet postfix index t =
    added (api.add_ip_address t.clock (network_ip subnet postfix) index) (record t {
      clock = t.clock + 1;
      actions = ip_added (network_ip subnet postfix) 0x00FFFFFF index ∷ t.actions;
    })

-- `setIp` never throws. If the index of the adapter is found, it asks Windows to add the address
-- 192.168.subnet.postfix with the netmask 255.255.255.0, both in network order, to that adapter,
-- and the object remembers the address, for the destructor, exactly if Windows took it. If the
-- search for the index throws, `setIp` does nothing more.
pub set_ip-adds :
    (api : AdapterApi) (t : TunWin) (subnet postfix : ℕ)
    → IsHtonl api.htonl
    → subnet < 256
    → postfix < 256
    → let t' = (get_adapter_index api t).1 in
      ((index : ℕ) × ((get_adapter_index api t).0 ≡ ok index)
        × (set_ip api subnet postfix t ≡ (ok tt, after_add api subnet postfix index t')))
      ⊎ ((e : ToxTunError) × ((get_adapter_index api t).0 ≡ err (thrown e))
          × (set_ip api subnet postfix t ≡ (ok tt, t')))
unfolding set_ip
set_ip-adds api t subnet postfix swaps s p =
    let t' : TunWin = (get_adapter_index api t).1 in
    let ip = swaps postfix subnet 168 192 p s (omega arith) (omega arith) in
    let mask = swaps 0 255 255 255 (omega arith) (omega arith) (omega arith) (omega arith) in
    elim (get_adapter_index-FoundOrThrown api t) [
      | inr (e, throws) ↦ inr (e, throws, rw throws refl)
      | inl (index, found) ↦ inl (
        index,
        found,
        elim (Option-cases (api.add_ip_address t'.clock (network_ip subnet postfix) index)) [
          | inl refused ↦ rw (found, ip_of-bytes subnet postfix s p, ip, mask, refused) refl
          | inr (context, taken) ↦ rw (found, ip_of-bytes subnet postfix s p, ip, mask, taken) refl
        ],
      )
    ]

of_adapter-AllOutside :
    (subnet : ℕ) (l : List SocketAddress) (used : List Address)
    → AllOutside subnet (of_adapter l used) ↔ (All (Outside subnet) l × AllOutside subnet used)
unfolding of_adapter
of_adapter-AllOutside subnet [] used = (λ h. (tt, h), λ h. h.1)
of_adapter-AllOutside subnet (a ∷ l) used =
    let first = add_address-Outside subnet a (of_adapter l used) in
    let rest = of_adapter-AllOutside subnet l used in
    (
      λ h. let (o, r) = first.0 h in let (os, u) = rest.0 r in ((o, os), u),
      λ h. first.1 (h.0.0, rest.1 (h.0.1, h.1)),
    )

of_adapters-AllOutside :
    (subnet : ℕ) (adapters : List (List SocketAddress))
    → AllOutside subnet (of_adapters adapters) ↔ All (All (Outside subnet)) adapters
unfolding of_adapters
of_adapters-AllOutside subnet [] = (λ h. tt, λ h. tt)
of_adapters-AllOutside subnet (l ∷ adapters) =
    let first = of_adapter-AllOutside subnet l (of_adapters adapters) in
    let rest = of_adapters-AllOutside subnet adapters in
    (λ h. let (o, r) = first.0 h in (o, rest.0 r), λ h. first.1 (h.0, rest.1 h.1))

-- With the addresses that Windows lists, a subnet counts as unused exactly if no adapter has an
-- IPv4 address in it.
pub is_addrspace_unused-adapters :
    (api : AdapterApi) (t : TunWin) (subnet : ℕ) (adapters : List (List SocketAddress))
    → api.size_known t.clock ≡ true
    → api.adapters (t.clock + 1) ≡ some adapters
    → (is_addrspace_unused (get_used_ip4_addresses api t).0 subnet ≡ ok true)
      ↔ All (All (Outside subnet)) adapters
unfolding get_used_ip4_addresses
is_addrspace_unused-adapters api t subnet adapters known lists =
    let unused = is_addrspace_unused-AllOutside subnet (of_adapters adapters) in
    let outside = of_adapters-AllOutside subnet adapters in
    rw (known, lists) (λ h. outside.0 (unused.0 h), λ h. unused.1 (outside.1 h))
