-- ===== src/Data.antt =====
-- src/Data.hpp and src/Data.cpp, but for `getSplitted` (Split) and `fromFragments` (Assembly).
-- A copy of a `Data` shares its vector, and nothing writes to a vector that has been shared, so a
-- `Data` is a value here. Bytes are numbers.
pub mod Laws
pub mod Frames
pub mod Ending
use lib_tox_tun.Base.{
  ℕ, ◌+◌, ◌-◌, ◌%◌, ◌^◌, Bool, true, false, ◌&&◌, Option, none, some, List, length, get_elem?, set,
  take, drop, replicate, ◌++◌, ltb, leb, ◌==◌, if◌then◌else◌,
}
use lib_tox_tun.Errors.{
  Result, ok, err, Fault, thrown, out_of_range, undefined, error, throw, guard, ◌>>=◌, ◌>>◌,
}

pub data PacketId : Type 0 where
  connection_request connection_accept connection_reject connection_close : PacketId
  connection_reset ip_proposal ip_accept ip_reject packet_data fragment : PacketId
  unnamed : ℕ → PacketId

pub data SendTox : Type 0 where
  lossless lossy : SendTox

-- `static_cast<uint8_t>(id)`
unfoldable pub to_byte : PacketId → ℕ
to_byte connection_request = 160
to_byte connection_accept = 161
to_byte connection_reject = 162
to_byte connection_close = 163
to_byte connection_reset = 164
to_byte ip_proposal = 165
to_byte ip_accept = 166
to_byte ip_reject = 167
to_byte packet_data = 200
to_byte fragment = 201
to_byte (unnamed b) = b

-- `static_cast<PacketId>(b)`: a value that no enumerator names is `unnamed`.
unfoldable pub from_byte : ℕ → PacketId
from_byte b =
    if b == 160
    then connection_request
    else if b == 161
    then connection_accept
    else if b == 162
    then connection_reject
    else if b == 163
    then connection_close
    else if b == 164
    then connection_reset
    else if b == 165
    then ip_proposal
    else if b == 166
    then ip_accept
    else if b == 167
    then ip_reject
    else if b == 200
    then packet_data
    else if b == 201
    then fragment
    else unnamed b

pub record Data : Type 0 where
  pub bytes : List ℕ
  pub tox_header_set : Bool

-- `size_t` arithmetic.
abbrev pub size_mod : ℕ
size_mod = 2 ^ 64

abbrev pub add_size : ℕ → ℕ → ℕ
add_size a b = (a + b) % size_mod

abbrev pub sub_size : ℕ → ℕ → ℕ
sub_size a b = (a + size_mod - b) % size_mod

-- `v.at(i)` read
unfoldable pub at : List ℕ → ℕ → Result ℕ
at v i = elim (get_elem? v i) [ none ↦ err out_of_range | some b ↦ ok b ]

-- `v.at(i) = b`
unfoldable pub put_at : List ℕ → ℕ → ℕ → Result (List ℕ)
put_at v i b = if ltb i (length v) then ok (set v i b) else err out_of_range

-- `memcpy(&v.at(pos), src, src.size())`
unfoldable pub copy_at : List ℕ → ℕ → List ℕ → Result (List ℕ)
copy_at v pos src = do
  guard (ltb pos (length v)) out_of_range
  guard (leb (pos + length src) (length v)) undefined
  ok (take pos v ++ src ++ drop (pos + length src) v)

-- `Data(size_t len)`
unfoldable pub new : ℕ → Data
new len = record { bytes = replicate (if len == 0 then 1 else len) 0; tox_header_set = false }

unfoldable pub set_tox_header : Data → PacketId → Result Data
unfolding put_at to_byte
set_tox_header d id = do
  bytes ← put_at d.bytes 0 (to_byte id)
  ok (record { bytes = bytes; tox_header_set = true })

unfoldable pub from_tox_data : List ℕ → Result Data
unfolding new copy_at
from_tox_data buffer = do
  bytes ← copy_at (new (length buffer)).bytes 0 buffer
  ok (record { bytes = bytes; tox_header_set = true })

unfoldable pub from_tun_data : List ℕ → Result Data
from_tun_data buffer =
    if add_size (length buffer) 1 == 0 then throw "Data from Tun to long to store in vector" else do
      let d = new (add_size (length buffer) 1)
      bytes ← copy_at d.bytes 1 buffer
      set_tox_header (record d { bytes = bytes }) packet_data

unfoldable pub from_ip_postfix : ℕ → ℕ → Result Data
unfolding new put_at set_tox_header
from_ip_postfix subnet postfix = do
  let d = new 3
  v ← put_at d.bytes 1 subnet
  w ← put_at v 2 postfix
  set_tox_header (record d { bytes = w }) ip_proposal

unfoldable pub from_packet_id : PacketId → Result Data
unfolding new set_tox_header
from_packet_id id = set_tox_header (new 1) id

unfoldable pub get_tox_header : Data → Result PacketId
unfolding at from_byte
get_tox_header d =
    if d.tox_header_set
    then (do b ← at d.bytes 0; ok (from_byte b))
    else throw "ToxHeader not set for Data package (1)"

-- The buffer that the returned pointer heads.
unfoldable pub get_ip_data : Data → Result (List ℕ)
get_ip_data d =
    if ltb (length d.bytes) 2
    then throw "Trying to access IpData in Data packet of length 1"
    else ok (drop 1 d.bytes)

unfoldable pub get_ip_data_len : Data → ℕ
get_ip_data_len d = sub_size (length d.bytes) 1

unfoldable pub get_tox_data : Data → Result (List ℕ)
get_tox_data d =
    if d.tox_header_set then ok d.bytes else throw "ToxHeader not set for Data package (2)"

unfoldable pub get_tox_data_len : Data → ℕ
get_tox_data_len d = length d.bytes

-- The comparison of two `PacketId` values, which C++ makes on their bytes.
abbrev pub is_packet : PacketId → PacketId → Bool
is_packet a b = to_byte a == to_byte b

ip_byte : Data → ℕ → Result ℕ
unfolding get_tox_header at
ip_byte d i = do
  id ← get_tox_header d
  guard (is_packet id ip_proposal) (error "Requesting IP from a non IP Packet")
  guard (length d.bytes == 3) (error "Ip Packet has invalid size")
  at d.bytes i

unfoldable pub get_ip_postfix : Data → Result ℕ
unfolding ip_byte
get_ip_postfix d = ip_byte d 2

unfoldable pub get_ip_subnet : Data → Result ℕ
unfolding ip_byte
get_ip_subnet d = ip_byte d 1

send_tox_of : ℕ → Result SendTox
send_tox_of h =
    if leb 200 h && leb h 254
    then ok lossy
    else if leb 160 h && leb h 191
    then ok lossless
    else throw "Called getSendTox(), but toxHeader not in range"

unfoldable pub get_send_tox : Data → Result SendTox
unfolding send_tox_of get_tox_header to_byte
get_send_tox d = do id ← get_tox_header d; send_tox_of (to_byte id)

-- Every failure of `getToxHeader` that is a `ToxTunError` is caught.
header_is_fragment : Result PacketId → Result Bool
header_is_fragment (ok id) = ok (is_packet id fragment)
header_is_fragment (err (thrown e)) = ok false
header_is_fragment (err e) = err e

unfoldable pub is_valid_fragment : Data → Result Bool
unfolding header_is_fragment get_tox_header
is_valid_fragment d = do
  named ← header_is_fragment (get_tox_header d)
  ok (if named then leb 4 (length d.bytes) else false)

unfoldable pub get_splitted_data_index : Data → Result ℕ
unfolding get_tox_header at
get_splitted_data_index d = do
  id ← get_tox_header d
  guard (is_packet id fragment) (error "Trying to get SplittedDataIndex from a non fragment")
  guard (leb 2 (length d.bytes)) (error "Empty Data fragment")
  at d.bytes 1

unfoldable pub get_fragments_count : Data → Result ℕ
unfolding get_tox_header at
get_fragments_count d = do
  id ← get_tox_header d
  guard (is_packet id fragment) (error "Trying to get fragmentsCount from a non fragment")
  guard (leb 4 (length d.bytes)) (error "Data fragment to short")
  at d.bytes 3
