-- ===== src/Tests/Wire.antt =====
-- Splitting, assembly and the filters.
use mathlib.Core.List.{Mem}
use mathlib.Core.List.Perm
use mathlib.Core.Logic.{◌↔◌}
use lib_tox_tun.Base.{ℕ, ◌<◌, ◌≡◌, refl, List, [], ◌∷◌, ◌++◌, replicate, true, arith, All, length}
use lib_tox_tun.Errors.{ok, err, out_of_range, undefined}
use lib_tox_tun.Data.{Data}
use lib_tox_tun.Split.{get_splitted}
use lib_tox_tun.Assembly.{from_fragments}
use lib_tox_tun.RoundTrip.{OnWire, from_fragments-get_splitted, get_splitted-OnWire}
use lib_tox_tun.Tun.{is_from_own_tox, is_addrspace_unused, Address}
use lib_tox_tun.Tun.Filter.{is_from_own_tox_overrun}
use lib_tox_tun.Tun.Subnet.{InSubnet, is_addrspace_unused_iff}
use lib_tox_tun.Scenario.{data_of}

abbrev frame : Data
frame = data_of (200 ∷ 1 ∷ 2 ∷ 3 ∷ 4 ∷ 5 ∷ 6 ∷ [])

abbrev first : Data
first = data_of (201 ∷ 9 ∷ 0 ∷ 3 ∷ 200 ∷ 1 ∷ 2 ∷ [])

abbrev second : Data
second = data_of (201 ∷ 9 ∷ 1 ∷ 3 ∷ 3 ∷ 4 ∷ 5 ∷ [])

abbrev third : Data
third = data_of (201 ∷ 9 ∷ 2 ∷ 3 ∷ 6 ∷ [])

splits : get_splitted 7 frame 9 ≡ ok (third ∷ second ∷ first ∷ [])
unfolding get_splitted
splits = refl

empty_fragment_throws : from_fragments (data_of (201 ∷ 9 ∷ 0 ∷ 1 ∷ []) ∷ []) ≡ err out_of_range
unfolding from_fragments
empty_fragment_throws = refl

from_fragments-get_splitted_example : from_fragments (second ∷ third ∷ first ∷ []) ≡ ok frame
from_fragments-get_splitted_example =
    from_fragments-get_splitted 7 frame 9 (third ∷ second ∷ first ∷ [])
      (second ∷ third ∷ first ∷ []) (omega arith) splits (Perm.swap second third (first ∷ []))

get_splitted-OnWire_example :
    (sent : List Data) × (get_splitted 7 frame 9 ≡ ok sent)
    × (0 < length sent)
    × All (OnWire 7 9 (length sent)) sent
get_splitted-OnWire_example = get_splitted-OnWire 7 frame 9 (omega arith)

-- Ethernet, IPv4 with a header of five words, UDP from port 33445.
abbrev own_frame : List ℕ
own_frame =
    replicate 12 0
    ++ (8 ∷ 0 ∷ 69 ∷ 0 ∷ 0 ∷ 30 ∷ 0 ∷ 0 ∷ 0 ∷ 0 ∷ 64 ∷ 17 ∷ [])
    ++ replicate 10 0
    ++ (130 ∷ 165 ∷ 1 ∷ 1 ∷ [])

abbrev short_ipv6 : List ℕ
short_ipv6 = replicate 12 0 ++ (0x86 ∷ 0xDD ∷ 0x60 ∷ 0 ∷ 0 ∷ 0 ∷ 0 ∷ 0 ∷ 17 ∷ []) ++ replicate 33 0

is_from_own_tox_overrun_example : is_from_own_tox 33445 (data_of (200 ∷ short_ipv6)) ≡ err undefined
is_from_own_tox_overrun_example =
    is_from_own_tox_overrun 33445 short_ipv6 (omega arith) 200 true (omega arith) (omega arith)
      (omega arith) refl refl

abbrev neighbour : Address
neighbour = record { a0 = 192; a1 = 168; a2 = 3; a3 = 5 }

is_addrspace_unused_iff_example :
    (is_addrspace_unused (ok (neighbour ∷ [])) 3 ≡ ok true)
    ↔ ((a : Address) → Mem a (neighbour ∷ []) → ¬ InSubnet 3 a)
is_addrspace_unused_iff_example = is_addrspace_unused_iff 3 (neighbour ∷ [])
