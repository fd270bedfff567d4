-- ===== src/Sockets.antt =====
-- The addresses that both platforms list, and a subnet that none of them uses.
use mathlib.Core.List.{Mem, mem-cons, not-mem-nil, mem-cons_self, mem-cons_of_mem}
use mathlib.Core.Logic.{◌↔◌}
use mathlib.Core.Logic.Or
use mathlib.Core.HLevel.{⊥_prop}
use lib_tox_tun.Base.{ℕ, ◌≡◌, true, List, [], ◌∷◌, All}
use lib_tox_tun.Errors.{ok}
use lib_tox_tun.Tun.{Address, is_addrspace_unused}
use lib_tox_tun.Tun.Subnet.{InSubnet, is_addrspace_unused_iff}

-- An address of an adapter or an interface.
pub data SocketAddress : Type 0 where
  inet : Address → SocketAddress
  other_family : SocketAddress

-- `used` with the address in front, if it is an IPv4 address.
abbrev pub add_address : SocketAddress → List Address → List Address
add_address (inet a) used = a ∷ used
add_address other_family used = used

-- The address is no IPv4 address of the subnet.
abbrev pub Outside : ℕ → SocketAddress → Type 0
Outside subnet (inet a) = ¬ InSubnet subnet a
Outside subnet other_family = Unit {0}

-- None of the addresses lies in the subnet.
abbrev pub AllOutside : ℕ → List Address → Type 0
AllOutside subnet used = All (λ a. ¬ InSubnet subnet a) used

pub add_address-Outside :
    (subnet : ℕ) (a : SocketAddress) (used : List Address)
    → AllOutside subnet (add_address a used) ↔ (Outside subnet a × AllOutside subnet used)
add_address-Outside subnet (inet a) used = (λ h. h, λ h. h)
add_address-Outside subnet other_family used = (λ h. (tt, h), λ h. h.1)

AllOutside-mem :
    (subnet : ℕ) (used : List Address)
    → AllOutside subnet used
    → (a : Address) → Mem a used
    → ¬ InSubnet subnet a
AllOutside-mem subnet [] h a m i = not-mem-nil m
AllOutside-mem subnet (b ∷ used) h a m i =
    Or.elim ⊥_prop (mem-cons.0 m) (λ e. h.0 (rw e at i)) (λ r. AllOutside-mem subnet used h.1 a r i)

mem-AllOutside :
    (subnet : ℕ) (used : List Address)
    → ((a : Address) → Mem a used → ¬ InSubnet subnet a)
    → AllOutside subnet used
mem-AllOutside subnet [] h = tt
mem-AllOutside subnet (b ∷ used) h =
    (h b mem-cons_self, mem-AllOutside subnet used (λ a m. h a (mem-cons_of_mem _ m)))

pub is_addrspace_unused-AllOutside :
    (subnet : ℕ) (used : List Address)
    → (is_addrspace_unused (ok used) subnet ≡ ok true) ↔ AllOutside subnet used
is_addrspace_unused-AllOutside subnet used = (
  λ e. mem-AllOutside subnet used ((is_addrspace_unused_iff subnet used).0 e),
  λ h. (is_addrspace_unused_iff subnet used).1 (AllOutside-mem subnet used h),
)
