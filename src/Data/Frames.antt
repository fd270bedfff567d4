-- ===== src/Data/Frames.antt =====
-- src/Data.cpp, `fromTunData` and `getIpData`: a frame in a packet.
use mathlib.Core.List.{append-nil}
use lib_tox_tun.Base.{
  ℕ, suc, ◌+◌, ◌-◌, ◌<◌, ◌≡◌, refl, true, false, List, [], ◌∷◌, arith, length, ◌==◌,
}
use lib_tox_tun.Errors.{ok, err, out_of_range}
use lib_tox_tun.Data.{
  Data, packet_data, to_byte, at, size_mod, add_size, new, copy_at, from_tun_data, get_tox_header,
  get_ip_data, get_ip_data_len, get_tox_data_len,
}
use lib_tox_tun.Data.Laws.{new-pos, copy_onto_zeros, set_tox_header-cons}

-- A frame becomes a packet with one byte more in front.
pub from_tun_data-cons :
    (frame : List ℕ)
    → 0 < length frame
    → length frame + 1 < size_mod
    → from_tun_data frame
      ≡ ok (record { bytes = to_byte packet_data ∷ frame; tox_header_set = true })
unfolding from_tun_data
from_tun_data-cons frame some_bytes fits =
    let size : add_size (length frame) 1 ≡ suc (length frame) = omega arith in
    let not_zero : (suc (length frame) == 0) ≡ false = ground arith in
    let all : length frame - length frame ≡ 0 = omega arith in
    rw
      (
        size,
        not_zero,
        new-pos (suc (length frame)) (omega arith),
        copy_onto_zeros (0 ∷ []) frame (length frame) some_bytes (omega arith),
        all,
      )
      (rw (append-nil frame) (set_tox_header-cons 0 frame false packet_data))

-- An empty frame throws: there is no byte to copy to.
pub from_tun_data-nil : from_tun_data [] ≡ err out_of_range
unfolding from_tun_data new copy_at
from_tun_data-nil = refl

-- A frame that was read from the interface comes out of the packet as it went in, and the packet
-- is a data packet of one byte more.
pub get_ip_data-from_tun_data :
    (frame : List ℕ) (d : Data)
    → length frame + 1 < size_mod
    → from_tun_data frame ≡ ok d
    → (get_tox_header d ≡ ok packet_data)
      × (get_ip_data d ≡ ok frame)
      × (get_ip_data_len d ≡ length frame)
      × (get_tox_data_len d ≡ length frame + 1)
unfolding get_tox_header at to_byte get_ip_data get_ip_data_len get_tox_data_len
get_ip_data-from_tun_data [] d fits e = absurd (cc (e, from_tun_data-nil))
get_ip_data-from_tun_data (b ∷ frame) d fits e =
    let is : record { bytes = to_byte packet_data ∷ b ∷ frame; tox_header_set = true } ≡ d =
      cc (from_tun_data-cons (b ∷ frame) (omega arith) fits, e) in
    rw (← is) (refl, ground arith, omega arith, omega arith)
