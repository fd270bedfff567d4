-- ===== src/Tun/Filter.antt =====
-- What the filter of own tox packets computes, in terms of the bytes of the frame.
use lib_tox_tun.Base.{
  ℕ, zero, suc, ◌+◌, ◌*◌, ◌/◌, ◌%◌, ◌≤◌, ◌<◌, ◌≡◌, refl, Bool, ◌&&◌, List, [], ◌∷◌, arith, length,
  get_or, All, ltb, leb, ◌==◌, if◌then◌else◌, Bool-cases, inl, inr,
}
use lib_tox_tun.Errors.{ok, err, undefined, ◌>>=◌}
use lib_tox_tun.Data.{Data, size_mod, get_ip_data, get_ip_data_len}
use lib_tox_tun.Tun.{read, port_is, is_from_own_tox_ipv6, is_from_own_tox}

abbrev pub byte : List ℕ → ℕ → ℕ
byte frame i = get_or frame i 0

abbrev pub word : List ℕ → ℕ → ℕ
word frame i = byte frame i * 256 + byte frame (i + 1)

read_inside : (frame : List ℕ) (i : ℕ) → i < length frame → read frame i ≡ ok (byte frame i)
unfolding read
read_inside [] i h = absurd (omega arith)
read_inside (b ∷ frame) zero h = refl
read_inside (b ∷ frame) (suc i) h = read_inside frame i (omega arith)

read_outside : (frame : List ℕ) (i : ℕ) → length frame ≤ i → read frame i ≡ err undefined
unfolding read
read_outside [] i h = refl
read_outside (b ∷ frame) zero h = absurd (omega arith)
read_outside (b ∷ frame) (suc i) h = read_outside frame i (omega arith)

abbrev pub AreBytes : List ℕ → Type 0
AreBytes = All (λ b. b < 256)

byte-lt : (frame : List ℕ) (i : ℕ) → AreBytes frame → byte frame i < 256
byte-lt [] i h = omega arith
byte-lt (b ∷ frame) zero h = h.0
byte-lt (b ∷ frame) (suc i) h = byte-lt frame i h.1

module _ (port : ℕ) (frame : List ℕ) where
  -- The frame is IPv4, its payload UDP, whole or a first fragment, and its source port `port`.
  abbrev pub own_ipv4 : Bool
  own_ipv4 =
      let start = 14 + byte frame 14 % 16 * 4 in
      leb 24 (length frame)
      && byte frame 23 == 17
      && word frame 20 % 8192 == 0
      && leb (start + 2) (length frame)
      && word frame start == port

  -- What the tests for IPv4 compute: the frame has no more-fragments bit, its payload is UDP, and
  -- the two bytes behind the header are `port`, whatever the fragment offset.
  abbrev filtered_ipv4 : Bool
  filtered_ipv4 =
      let start = 14 + byte frame 14 % 16 * 4 in
      leb 24 (length frame)
      && byte frame 23 == 17
      && byte frame 20 / 32 % 2 == 0
      && leb (start + 2) (length frame)
      && word frame start == port

  -- The frame is IPv6, its payload UDP, whole or a first fragment, and its source port `port`.
  abbrev pub own_ipv6 : Bool
  own_ipv6 =
      leb 54 (length frame)
      && (if byte frame 20 == 44
          then leb 64 (length frame)
            && word frame 56 / 8 == 0
            && byte frame 54 == 17
            && word frame 62 == port
          else byte frame 20 == 17 && word frame 54 == port)

  abbrev pub own_packet : Bool
  own_packet =
      leb 14 (length frame)
      && (if word frame 12 == 0x0800 then own_ipv4 else word frame 12 == 0x86DD && own_ipv6)

  abbrev filtered : Bool
  filtered =
      leb 14 (length frame)
      && (if word frame 12 == 0x0800 then filtered_ipv4 else word frame 12 == 0x86DD && own_ipv6)

  -- The frame is IPv4 with the more-fragments bit.
  abbrev pub more_fragments : Bool
  more_fragments = word frame 12 == 0x0800 && byte frame 20 / 32 % 2 == 1

  -- A frame that is IPv4 without the more-fragments bit has the fragment offset 0: it is whole.
  abbrev pub IsNoLastFragment : Type 0
  IsNoLastFragment = word frame 12 ≡ 0x0800 → byte frame 20 / 32 % 2 ≡ 0 → word frame 20 % 8192 ≡ 0

  module _ (bytes : AreBytes frame) where
    module _ (header : ℕ) (named : Bool) (small : length frame + 1 < size_mod) where
      abbrev pub packet : Data
      packet = record { bytes = header ∷ frame; tox_header_set = named }

      ip_data_len : get_ip_data_len packet ≡ length frame
      unfolding get_ip_data_len
      ip_data_len = omega arith

      ip_data : 0 < length frame → get_ip_data packet ≡ ok frame
      unfolding get_ip_data
      ip_data h = ground arith

      port_is_outside :
          54 ≤ length frame → length frame ≤ 55 → port_is port frame 54 ≡ err undefined
      unfolding port_is read
      port_is_outside l h = elim (Bool-cases (ltb (length frame) 55)) [
        | inl none_left ↦ rw (read_outside frame 54 (ground arith))
        | inr one_left ↦ rw (read_inside frame 54 (ground arith), read_outside frame 55 h, ◌>>=◌)
      ]

      -- An IPv6 frame of 54 or 55 bytes with UDP behind its header has no room for a source port,
      -- and the filter reads behind the end of the buffer.
      pub is_from_own_tox_overrun :
          54 ≤ length frame
          → length frame ≤ 55
          → word frame 12 ≡ 0x86DD
          → byte frame 20 ≡ 17
          → is_from_own_tox port packet ≡ err undefined
      unfolding is_from_own_tox is_from_own_tox_ipv6 read
      is_from_own_tox_overrun l h ether udp =
          rw
            (
              ip_data_len,
              ip_data (omega arith),
              read_inside frame 12 (omega arith),
              read_inside frame 13 (omega arith),
              read_inside frame 20 (omega arith),
              ◌>>=◌,
              port_is_outside l h,
            )
            (ground (arith, byte-lt frame 12 bytes, byte-lt frame 13 bytes))
