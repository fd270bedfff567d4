-- ===== src/Data/Ending.antt =====
-- src/Data.cpp: its functions do not lack fuel, whatever else they return.
use lib_tox_tun.Base.{
  ◌&&◌, ℕ, ◌+◌, List, length, leb, ltb, ◌==◌, Bool-cases, Option-cases, inl, inr, get_elem?,
}
use lib_tox_tun.Errors.{Result, ok, err, thrown, out_of_range, terminated, undefined, diverged}
use lib_tox_tun.Errors.Ending.{Ends, Ends-bind, Ends-guard, Ends-if}
use lib_tox_tun.Data.{
  send_tox_of, get_send_tox, get_tox_data, to_byte, lossless, lossy, Data, PacketId, ip_proposal,
  fragment, is_packet, at, copy_at, get_tox_header, ip_byte, get_ip_postfix, get_ip_subnet,
  get_ip_data, header_is_fragment, is_valid_fragment, get_splitted_data_index, get_fragments_count,
  from_tox_data, new,
}

pub at-Ends : (v : List ℕ) (i : ℕ) → Ends (at v i)
unfolding at
at-Ends v i = elim (Option-cases (get_elem? v i)) [
  | inl outside ↦ rw (outside, Ends) tt
  | inr (b, inside) ↦ rw (inside, Ends) tt
]

pub copy_at-Ends : (v : List ℕ) (pos : ℕ) (src : List ℕ) → Ends (copy_at v pos src)
unfolding copy_at
copy_at-Ends v pos src =
    Ends-guard (ltb pos (length v)) out_of_range _ tt
      (Ends-guard (leb (pos + length src) (length v)) undefined _ tt tt)

pub get_tox_header-Ends : (d : Data) → Ends (get_tox_header d)
unfolding get_tox_header
get_tox_header-Ends d = elim (Bool-cases d.tox_header_set) [
  | inl named ↦ rw named (Ends-bind (at d.bytes 0) _ (at-Ends d.bytes 0) (λ b. tt))
  | inr unnamed ↦ rw unnamed tt
]

ip_byte-Ends : (d : Data) (i : ℕ) → Ends (ip_byte d i)
unfolding ip_byte
ip_byte-Ends d i = Ends-bind (get_tox_header d) _ (get_tox_header-Ends d) (λ id.
    Ends-guard (is_packet id ip_proposal) _ _ tt
      (Ends-guard (length d.bytes == 3) _ _ tt (at-Ends d.bytes i)))

pub get_ip_postfix-Ends : (d : Data) → Ends (get_ip_postfix d)
unfolding get_ip_postfix
get_ip_postfix-Ends d = ip_byte-Ends d 2

pub get_ip_subnet-Ends : (d : Data) → Ends (get_ip_subnet d)
unfolding get_ip_subnet
get_ip_subnet-Ends d = ip_byte-Ends d 1

pub get_ip_data-Ends : (d : Data) → Ends (get_ip_data d)
unfolding get_ip_data
get_ip_data-Ends d = elim (Bool-cases (ltb (length d.bytes) 2)) [
  | inl short ↦ rw short tt
  | inr enough ↦ rw enough tt
]

header_is_fragment-Ends : (r : Result PacketId) → Ends r → Ends (header_is_fragment r)
unfolding header_is_fragment
header_is_fragment-Ends (ok id) h = tt
header_is_fragment-Ends (err (thrown e)) h = tt
header_is_fragment-Ends (err out_of_range) h = tt
header_is_fragment-Ends (err terminated) h = tt
header_is_fragment-Ends (err undefined) h = tt
header_is_fragment-Ends (err diverged) h = h

pub is_valid_fragment-Ends : (d : Data) → Ends (is_valid_fragment d)
unfolding is_valid_fragment
is_valid_fragment-Ends d =
    Ends-bind (header_is_fragment (get_tox_header d)) _
      (header_is_fragment-Ends (get_tox_header d) (get_tox_header-Ends d)) (λ named. tt)

pub get_splitted_data_index-Ends : (d : Data) → Ends (get_splitted_data_index d)
unfolding get_splitted_data_index
get_splitted_data_index-Ends d = Ends-bind (get_tox_header d) _ (get_tox_header-Ends d) (λ id.
    Ends-guard (is_packet id fragment) _ _ tt
      (Ends-guard (leb 2 (length d.bytes)) _ _ tt (at-Ends d.bytes 1)))

pub get_fragments_count-Ends : (d : Data) → Ends (get_fragments_count d)
unfolding get_fragments_count
get_fragments_count-Ends d = Ends-bind (get_tox_header d) _ (get_tox_header-Ends d) (λ id.
    Ends-guard (is_packet id fragment) _ _ tt
      (Ends-guard (leb 4 (length d.bytes)) _ _ tt (at-Ends d.bytes 3)))

pub from_tox_data-Ends : (buffer : List ℕ) → Ends (from_tox_data buffer)
unfolding from_tox_data
from_tox_data-Ends buffer =
    Ends-bind (copy_at (new (length buffer)).bytes 0 buffer) _
      (copy_at-Ends (new (length buffer)).bytes 0 buffer) (λ bytes. tt)

send_tox_of-Ends : (h : ℕ) → Ends (send_tox_of h)
unfolding send_tox_of
send_tox_of-Ends h =
    Ends-if (leb 200 h && leb h 254) (ok lossy) _ tt
      (Ends-if (leb 160 h && leb h 191) (ok lossless) _ tt tt)

pub get_send_tox-Ends : (d : Data) → Ends (get_send_tox d)
unfolding get_send_tox
get_send_tox-Ends d =
    Ends-bind (get_tox_header d) _ (get_tox_header-Ends d) (λ id. send_tox_of-Ends (to_byte id))

pub get_tox_data-Ends : (d : Data) → Ends (get_tox_data d)
unfolding get_tox_data
get_tox_data-Ends d = Ends-if d.tox_header_set (ok d.bytes) _ tt tt
