-- ===== src/Tun/Ending.antt =====
-- src/Tun.cpp: the filter of own tox packets does not lack fuel, whatever else it returns.
use Prim.Native.Nat.{bit_and, bit_or}
use lib_tox_tun.Base.{
  ◌≡◌, ◌∙◌, true, false, if◌then◌else◌, ℕ, ◌+◌, ◌%◌, Bool, not, ◌&&◌, List, get_elem?, ltb, ◌==◌,
  Option-cases, inl, inr,
}
use lib_tox_tun.Errors.{Result, ok, err, thrown, out_of_range, terminated, undefined, diverged}
use lib_tox_tun.Errors.Ending.{Ends, Ends-bind, Ends-if, bind-ok}
use lib_tox_tun.Data.{Data, get_ip_data, get_ip_data_len}
use lib_tox_tun.Data.Ending.{get_ip_data-Ends}
use lib_tox_tun.Tun.{
  read, with_ip_data, port_is, ether_frame_offset, ipv4_port, ipv4_later, is_from_own_tox_ipv4,
  ipv6_fragment, is_from_own_tox_ipv6, is_from_own_tox, get_data, dropping,
}

read-Ends : (frame : List ℕ) (i : ℕ) → Ends (read frame i)
unfolding read
read-Ends frame i = elim (Option-cases (get_elem? frame i)) [
  | inl outside ↦ rw (outside, Ends) tt
  | inr (b, inside) ↦ rw (inside, Ends) tt
]

with_ip_data-Ends :
    (r : Result (List ℕ)) (k : List ℕ → Result Bool)
    → Ends r
    → ((frame : List ℕ) → Ends (k frame))
    → Ends (with_ip_data r k)
with_ip_data-Ends (ok frame) k h s = s frame
with_ip_data-Ends (err (thrown e)) k h s = tt
with_ip_data-Ends (err out_of_range) k h s = tt
with_ip_data-Ends (err terminated) k h s = tt
with_ip_data-Ends (err undefined) k h s = tt
with_ip_data-Ends (err diverged) k h s = h

port_is-Ends : (port : ℕ) (frame : List ℕ) (i : ℕ) → Ends (port_is port frame i)
unfolding port_is
port_is-Ends port frame i =
    Ends-bind (read frame i) _ (read-Ends frame i)
      (λ high. Ends-bind (read frame (i + 1)) _ (read-Ends frame (i + 1)) (λ low. tt))

ipv4_port-Ends : (port len : ℕ) (frame : List ℕ) → Ends (ipv4_port port len frame)
unfolding ipv4_port
ipv4_port-Ends port len frame =
    Ends-bind (read frame ether_frame_offset) _ (read-Ends frame _)
      (λ version_length. Ends-if (ltb len _) (ok _) _ tt (port_is-Ends port frame _))

ipv4_later-Ends : (frame : List ℕ) → Ends (ipv4_later frame)
unfolding ipv4_later
ipv4_later-Ends frame =
    Ends-bind (read frame (ether_frame_offset + 6)) _ (read-Ends frame _) (λ flags.
      Ends-if (bit_and flags 0x20 == 0) (ok _) _ tt
        (Ends-bind (read frame (ether_frame_offset + 7)) _ (read-Ends frame _) (λ offset. tt)))

is_from_own_tox_ipv4-Ends : (port : ℕ) (d : Data) → Ends (is_from_own_tox_ipv4 port d)
unfolding is_from_own_tox_ipv4
is_from_own_tox_ipv4-Ends port d =
    Ends-if (ltb (get_ip_data_len d) (ether_frame_offset + 10)) (ok _) _ tt (
      with_ip_data-Ends (get_ip_data d) _ (get_ip_data-Ends d) (λ frame.
        Ends-bind (read frame (ether_frame_offset + 9)) _ (read-Ends frame _) (λ protocol.
          Ends-if (not (protocol == 0x11)) (ok _) _ tt (
            Ends-bind (ipv4_later frame) _ (ipv4_later-Ends frame) (λ later.
              Ends-if later (ok _) _ tt (ipv4_port-Ends port (get_ip_data_len d) frame))))))

ipv6_fragment-Ends : (port len : ℕ) (frame : List ℕ) → Ends (ipv6_fragment port len frame)
unfolding ipv6_fragment
ipv6_fragment-Ends port len frame = Ends-if (ltb len (ether_frame_offset + 40 + 10)) (ok _) _ tt (
    Ends-bind (read frame (ether_frame_offset + 42)) _ (read-Ends frame _) (λ high.
      Ends-bind (read frame (ether_frame_offset + 43)) _ (read-Ends frame _) (λ low.
        Ends-if (not (bit_or high (bit_and low 0xF8) % 256 == 0)) (ok _) _ tt (
          Ends-bind (read frame (ether_frame_offset + 40)) _ (read-Ends frame _) (λ protocol.
            Ends-if (not (protocol == 0x11)) (ok _) _ tt (port_is-Ends port frame _))))))

is_from_own_tox_ipv6-Ends : (port : ℕ) (d : Data) → Ends (is_from_own_tox_ipv6 port d)
unfolding is_from_own_tox_ipv6
is_from_own_tox_ipv6-Ends port d =
    Ends-if (ltb (get_ip_data_len d) (ether_frame_offset + 40)) (ok _) _ tt (
      with_ip_data-Ends (get_ip_data d) _ (get_ip_data-Ends d) (λ frame.
        Ends-bind (read frame (ether_frame_offset + 6)) _ (read-Ends frame _) (λ next_header.
          Ends-if (next_header == 44) _ _ (ipv6_fragment-Ends port (get_ip_data_len d) frame)
            (Ends-if (not (next_header == 0x11)) (ok _) _ tt (port_is-Ends port frame _)))))

is_from_own_tox-Ends : (port : ℕ) (d : Data) → Ends (is_from_own_tox port d)
unfolding is_from_own_tox
is_from_own_tox-Ends port d = Ends-if (ltb (get_ip_data_len d) 14) (ok _) _ tt (
    with_ip_data-Ends (get_ip_data d) _ (get_ip_data-Ends d) (λ frame.
      Ends-bind (read frame 12) _ (read-Ends frame 12) (λ high.
        Ends-bind (read frame 13) _ (read-Ends frame 13) (λ low.
          Ends-if (high == 0x08 && low == 0x00) _ _ (is_from_own_tox_ipv4-Ends port d) (
            Ends-if (high == 0x86 && low == 0xDD) _ (ok _) (is_from_own_tox_ipv6-Ends port d)
              tt)))))

pub get_data-Ends : (port : ℕ) (backend : Result Data) → Ends backend → Ends (get_data port backend)
unfolding get_data
get_data-Ends port backend h = Ends-bind backend _ h (λ d.
    Ends-bind (is_from_own_tox port d) _ (is_from_own_tox-Ends port d)
      (λ own. Ends-if own (err (thrown dropping)) (ok d) tt tt))

-- What it returns is what the backend returned.
pub get_data-ok :
    (port : ℕ) (backend : Result Data) (d : Data) → get_data port backend ≡ ok d → backend ≡ ok d
unfolding get_data
get_data-ok port backend d h =
    let (d', h1, h2) = bind-ok backend _ d h in
    let (own, h3, h4) = bind-ok (is_from_own_tox port d') _ d h2 in h1 ∙ kept own d' h4
  where
    kept :
        (own : Bool) (d' : Data)
        → (if own then err (thrown dropping) else ok d') ≡ ok d
        → ok d' ≡ ok d
    kept true d' e = absurd (cc)
    kept false d' e = e
