-- ===== src/Tun/Bits.antt =====
-- The bit operations of the filter as arithmetic on bytes.
use Prim.Native.Nat.{bit_and, bit_or}
use lib_tox_tun.Base.{
  ℕ, zero, suc, ◌+◌, ◌*◌, ◌/◌, ◌%◌, ◌<◌, ◌≡◌, refl, Bool, true, ◌&&◌, arith, ◌==◌, ltb, leb, ◌≤◌,
}

-- A test that holds of every number below a bound, by evaluation.
unfoldable pub all_below : ℕ → (ℕ → Bool) → Bool
all_below zero test = true
all_below (suc n) test = test n && all_below n test

pub all_below-at :
    (n : ℕ) (test : ℕ → Bool) (x : ℕ) → all_below n test ≡ true → x < n → test x ≡ true
unfolding all_below
all_below-at zero test x h lt = absurd (omega arith)
all_below-at (suc n) test x h lt = ground (arith, all_below-at n test x)

masks : ℕ → Bool
masks x =
    bit_and x 0x20 == x / 32 % 2 * 32
    && bit_and x 0x0F == x % 16
    && bit_and x 0x2F == x / 32 % 2 * 32 + x % 16
    && bit_and x 0xF8 == x / 8 * 8

masks_table : all_below 256 masks ≡ true
unfolding all_below masks
masks_table = refl

pub byte_masks :
    (x : ℕ)
    → x < 256
    → (bit_and x 0x20 ≡ x / 32 % 2 * 32)
      × (bit_and x 0x0F ≡ x % 16)
      × (bit_and x 0x2F ≡ x / 32 % 2 * 32 + x % 16)
      × (bit_and x 0xF8 ≡ x / 8 * 8)
unfolding masks
byte_masks x h = ground (arith, all_below-at 256 masks x masks_table h)

-- `x` holds two bytes.
pair : ℕ → Bool
pair x =
    bit_or (x / 256 * 256) (x % 256) == x
    && leb (x / 256) (bit_or (x / 256) (x % 256))
    && leb (x % 256) (bit_or (x / 256) (x % 256))
    && leb (bit_or (x / 256) (x % 256)) (x / 256 + x % 256)
    && ltb (bit_or (x / 256) (x % 256)) 256

pair_table : all_below 65536 pair ≡ true
unfolding all_below pair
pair_table = refl

pub byte_pair :
    (high low : ℕ)
    → high < 256
    → low < 256
    → (bit_or (high * 256) low ≡ high * 256 + low)
      × (high ≤ bit_or high low)
      × (low ≤ bit_or high low)
      × (bit_or high low ≤ high + low)
      × (bit_or high low < 256)
unfolding pair
byte_pair high low h l =
    let hi : (high * 256 + low) / 256 ≡ high = omega arith in
    let lo : (high * 256 + low) % 256 ≡ low = omega arith in
    let table : pair (high * 256 + low) ≡ true =
      all_below-at 65536 pair (high * 256 + low) pair_table (omega arith) in
    ground (arith, rw (hi, lo) at table)
