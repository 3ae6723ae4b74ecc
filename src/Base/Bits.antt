-- ===== src/Base/Bits.antt =====
-- Masks on one byte as arithmetic. Each law is a table of at most 256 entries.
use Prim.Native.Nat.{ℕ, zero, suc, ◌+◌, ◌*◌, ◌/◌, ◌%◌, ◌<◌, bit_and, bit_or}
use mathlib.Core.Path.{◌≡◌, refl}
use mathlib.Core.Bool.{Bool, true, false}
use native.Mathlib.Omega.{arith}
use umqtt.Base.Tests.{◌==◌, if◌then◌else◌}

-- Two functions as tables of 256 entries at most, compared from the last entry to the first.
module _ (f g : ℕ → ℕ) where
  same_table : ℕ → Bool
  same_table zero = true
  same_table (suc last) = let before = same_table last in if f last == g last then before else false

  by_table : (size : ℕ) → same_table size ≡ true → (b : ℕ) → b < size → f b ≡ g b
  unfolding same_table
  by_table zero same b below = absurd (omega arith)
  by_table (suc last) same b below = ground (arith, by_table last _ b)

-- `b & 0x7F`
pub low_seven : (b : ℕ) → b < 256 → bit_and b 0x7f ≡ b % 128
unfolding same_table
low_seven = by_table (λ b. bit_and b 0x7f) (λ b. b % 128) 256 refl

-- `b & 0x80`
pub top_bit : (b : ℕ) → b < 256 → bit_and b 0x80 ≡ b / 128 * 128
unfolding same_table
top_bit = by_table (λ b. bit_and b 0x80) (λ b. b / 128 * 128) 256 refl

-- `b | 128`
pub set_top_bit : (b : ℕ) → b < 128 → bit_or b 128 ≡ b + 128
unfolding same_table
set_top_bit = by_table (λ b. bit_or b 128) (λ b. b + 128) 128 refl

-- `b & 0x02`
pub bit_1 : (b : ℕ) → b < 256 → bit_and b 0x02 ≡ b / 2 % 2 * 2
unfolding same_table
bit_1 = by_table (λ b. bit_and b 0x02) (λ b. b / 2 % 2 * 2) 256 refl

-- `b & 0x04`
pub bit_2 : (b : ℕ) → b < 256 → bit_and b 0x04 ≡ b / 4 % 2 * 4
unfolding same_table
bit_2 = by_table (λ b. bit_and b 0x04) (λ b. b / 4 % 2 * 4) 256 refl

-- `b & 0x20`
pub bit_5 : (b : ℕ) → b < 256 → bit_and b 0x20 ≡ b / 32 % 2 * 32
unfolding same_table
bit_5 = by_table (λ b. bit_and b 0x20) (λ b. b / 32 % 2 * 32) 256 refl

-- `b & 0x40`
pub bit_6 : (b : ℕ) → b < 256 → bit_and b 0x40 ≡ b / 64 % 2 * 64
unfolding same_table
bit_6 = by_table (λ b. bit_and b 0x40) (λ b. b / 64 % 2 * 64) 256 refl

-- `b & 0x18`
pub bits_3_4 : (b : ℕ) → b < 256 → bit_and b 0x18 ≡ b / 8 % 4 * 8
unfolding same_table
bits_3_4 = by_table (λ b. bit_and b 0x18) (λ b. b / 8 % 4 * 8) 256 refl

-- `b & 0x38`
pub bits_3_5 : (b : ℕ) → b < 256 → bit_and b 0x38 ≡ b / 8 % 8 * 8
unfolding same_table
bits_3_5 = by_table (λ b. bit_and b 0x38) (λ b. b / 8 % 8 * 8) 256 refl

or_low : (b : ℕ) → b < 256 → bit_or (b % 4) (b / 4 * 4) ≡ b
unfolding same_table
or_low = by_table (λ b. bit_or (b % 4) (b / 4 * 4)) (λ b. b) 256 refl

or_high : (b : ℕ) → b < 256 → bit_or (b % 64) (b / 64 * 64) ≡ b
unfolding same_table
or_high = by_table (λ b. bit_or (b % 64) (b / 64 * 64)) (λ b. b) 256 refl

-- Bits that do not overlap are added.
pub or_disjoint_low : (a k : ℕ) → a < 4 → k < 64 → bit_or a (k * 4) ≡ a + k * 4
or_disjoint_low a k ha hk =
    let low : (a + k * 4) % 4 ≡ a = omega arith in
    let high : (a + k * 4) / 4 ≡ k = omega arith in
    rw (low, high) at (or_low (a + k * 4) (omega arith))

pub or_disjoint_high : (a k : ℕ) → a < 64 → k < 4 → bit_or a (k * 64) ≡ a + k * 64
or_disjoint_high a k ha hk =
    let low : (a + k * 64) % 64 ≡ a = omega arith in
    let high : (a + k * 64) / 64 ≡ k = omega arith in
    rw (low, high) at (or_high (a + k * 64) (omega arith))
