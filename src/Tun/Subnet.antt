-- ===== src/Tun/Subnet.antt =====
-- The search for a subnet that nobody uses.
use mathlib.Core.List.{Mem, mem-cons, not-mem-nil, mem-cons_self, mem-cons_of_mem}
use mathlib.Core.Logic.{◌↔◌}
use mathlib.Core.Logic.Or
use mathlib.Core.HLevel.{⊥_prop}
use lib_tox_tun.Base.{ℕ, ◌≡◌, refl, true, List, [], ◌∷◌, arith}
use lib_tox_tun.Errors.{ok}
use lib_tox_tun.Tun.{Address, none_in_subnet, is_addrspace_unused}

-- The address is 192.168.subnet.x.
abbrev pub InSubnet : ℕ → Address → Type 0
InSubnet subnet a = (a.a0 ≡ 192) × (a.a1 ≡ 168) × (a.a2 ≡ subnet)

sound :
    (s : ℕ) (used : List Address)
    → none_in_subnet s used ≡ true
    → (a : Address) → Mem a used
    → ¬ InSubnet s a
unfolding none_in_subnet
sound s [] h a m i = not-mem-nil m
sound s (b ∷ used) h a m i =
    Or.elim ⊥_prop (mem-cons.0 m) (λ e. ground arith) (λ r. sound s used (ground arith) a r i)

complete :
    (s : ℕ) (used : List Address)
    → ((a : Address) → Mem a used → ¬ InSubnet s a)
    → none_in_subnet s used ≡ true
unfolding none_in_subnet
complete s [] h = refl
complete s (b ∷ used) h =
    ground (arith, complete s used (λ a m. h a (mem-cons_of_mem _ m)), h b mem-cons_self)

-- A subnet counts as unused exactly when no address in use lies in it.
pub is_addrspace_unused_iff :
    (s : ℕ) (used : List Address)
    → (is_addrspace_unused (ok used) s ≡ ok true) ↔ ((a : Address) → Mem a used → ¬ InSubnet s a)
unfolding is_addrspace_unused
is_addrspace_unused_iff s used = (λ e. sound s used (ground arith), λ h. rw (complete s used h))
