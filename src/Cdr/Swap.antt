-- ===== src/Cdr/Swap.antt =====
-- `bswap16`, `bswap32` and `bswap64` of rmw_gurumdds_cpp/src/cdr_deser_buffer.cpp.
use rmw_gurumdds.Base.{ℕ, ◌+◌, ◌*◌, ◌/◌, ◌%◌, ◌^◌, ◌<◌, ◌≡◌, bit_and, bit_or, arith}
use native.Mathlib.Nat.{div-add-mod, mod-lt, one-le-pow}
use rmw_gurumdds.Base.Bits.{bit_or_add, bit_and_high, bit_and_low}

-- `uint16_t`: the shifts are done in `int`, and the result is cut to 16 bits on return.
unfoldable pub bswap16 : ℕ → ℕ
bswap16 x = bit_or (x / 2 ^ 8) (x * 2 ^ 8) % 2 ^ 16

unfoldable pub bswap32 : ℕ → ℕ
bswap32 x =
    bit_or
      (bit_or (bit_or (x / 2 ^ 24) (bit_and (x / 2 ^ 8) 0x0000ff00))
        (bit_and (x * 2 ^ 8 % 2 ^ 32) 0x00ff0000))
      (x * 2 ^ 24 % 2 ^ 32)

unfoldable pub bswap64 : ℕ → ℕ
bswap64 x =
    bit_or
      (bit_or
        (bit_or
          (bit_or
            (bit_or
              (bit_or (bit_or (x / 2 ^ 56) (bit_and (x / 2 ^ 40) 0x000000000000ff00))
                (bit_and (x / 2 ^ 24) 0x0000000000ff0000))
              (bit_and (x / 2 ^ 8) 0x00000000ff000000))
            (bit_and (x * 2 ^ 8 % 2 ^ 64) 0x000000ff00000000))
          (bit_and (x * 2 ^ 24 % 2 ^ 64) 0x0000ff0000000000))
        (bit_and (x * 2 ^ 40 % 2 ^ 64) 0x00ff000000000000))
      (x * 2 ^ 56 % 2 ^ 64)

-- A mask that keeps the byte at bit `k`.
byte_mask : (k y : ℕ) → bit_and y (255 * 2 ^ k) ≡ y / 2 ^ k % 256 * 2 ^ k
byte_mask k y =
    let split : y % 2 ^ k + y / 2 ^ k * 2 ^ k ≡ y = grind (arith, div-add-mod y (2 ^ k)) in
    let small : y % 2 ^ k < 2 ^ k = mod-lt y (one-le-pow k 2 (omega arith)) in
    ground
      (arith, split, bit_and_high k (y / 2 ^ k) (y % 2 ^ k) 255 small, bit_and_low 8 (y / 2 ^ k))

pub bswap16_sum : (x : ℕ) → x < 2 ^ 16 → bswap16 x ≡ x / 2 ^ 8 + x % 2 ^ 8 * 2 ^ 8
unfolding bswap16
bswap16_sum x h = omega (arith, bit_or_add 8 x (x / 2 ^ 8))

pub bswap32_sum :
    (x : ℕ)
    → x < 2 ^ 32
    → bswap32 x
      ≡ x / 2 ^ 24 + x / 2 ^ 16 % 256 * 2 ^ 8 + x / 2 ^ 8 % 256 * 2 ^ 16 + x % 256 * 2 ^ 24
unfolding bswap32
bswap32_sum x h =
    let byte₂ : bit_and (x / 2 ^ 8) 0xff00 ≡ x / 2 ^ 16 % 256 * 2 ^ 8 =
      omega (arith, byte_mask 8 (x / 2 ^ 8)) in
    let byte₁ : bit_and (x * 2 ^ 8 % 2 ^ 32) 0xff0000 ≡ x / 2 ^ 8 % 256 * 2 ^ 16 =
      omega (arith, byte_mask 16 (x * 2 ^ 8 % 2 ^ 32)) in
    let byte₀ : x * 2 ^ 24 % 2 ^ 32 ≡ x % 256 * 2 ^ 24 = omega arith in
    let low₁ = x / 2 ^ 24 in
    let low₂ = low₁ + x / 2 ^ 16 % 256 * 2 ^ 8 in
    let low₃ = low₂ + x / 2 ^ 8 % 256 * 2 ^ 16 in
    rw
      (
        byte₂,
        byte₁,
        byte₀,
        bit_or_add 8 (x / 2 ^ 16 % 256) low₁ (omega arith),
        bit_or_add 16 (x / 2 ^ 8 % 256) low₂ (omega arith),
      )
      (bit_or_add 24 (x % 256) low₃ (omega arith))

-- The byte at bit `8 * i` of a word.
abbrev pub byte_of : ℕ → ℕ → ℕ
byte_of x i = x / 256 ^ i % 256

pub bswap64_sum :
    (x : ℕ)
    → x < 2 ^ 64
    → bswap64 x
      ≡ x / 2 ^ 56
        + byte_of x 6 * 2 ^ 8
        + byte_of x 5 * 2 ^ 16
        + byte_of x 4 * 2 ^ 24
        + byte_of x 3 * 2 ^ 32
        + byte_of x 2 * 2 ^ 40
        + byte_of x 1 * 2 ^ 48
        + byte_of x 0 * 2 ^ 56
unfolding bswap64
bswap64_sum x h =
    let byte₆ : bit_and (x / 2 ^ 40) 0xff00 ≡ byte_of x 6 * 2 ^ 8 =
      omega (arith, byte_mask 8 (x / 2 ^ 40)) in
    let byte₅ : bit_and (x / 2 ^ 24) 0xff0000 ≡ byte_of x 5 * 2 ^ 16 =
      omega (arith, byte_mask 16 (x / 2 ^ 24)) in
    let byte₄ : bit_and (x / 2 ^ 8) 0xff000000 ≡ byte_of x 4 * 2 ^ 24 =
      omega (arith, byte_mask 24 (x / 2 ^ 8)) in
    let byte₃ : bit_and (x * 2 ^ 8 % 2 ^ 64) 0xff00000000 ≡ byte_of x 3 * 2 ^ 32 =
      omega (arith, byte_mask 32 (x * 2 ^ 8 % 2 ^ 64)) in
    let byte₂ : bit_and (x * 2 ^ 24 % 2 ^ 64) 0xff0000000000 ≡ byte_of x 2 * 2 ^ 40 =
      omega (arith, byte_mask 40 (x * 2 ^ 24 % 2 ^ 64)) in
    let byte₁ : bit_and (x * 2 ^ 40 % 2 ^ 64) 0xff000000000000 ≡ byte_of x 1 * 2 ^ 48 =
      omega (arith, byte_mask 48 (x * 2 ^ 40 % 2 ^ 64)) in
    let byte₀ : x * 2 ^ 56 % 2 ^ 64 ≡ byte_of x 0 * 2 ^ 56 = omega arith in
    let low₁ = x / 2 ^ 56 in
    let low₂ = low₁ + byte_of x 6 * 2 ^ 8 in
    let low₃ = low₂ + byte_of x 5 * 2 ^ 16 in
    let low₄ = low₃ + byte_of x 4 * 2 ^ 24 in
    let low₅ = low₄ + byte_of x 3 * 2 ^ 32 in
    let low₆ = low₅ + byte_of x 2 * 2 ^ 40 in
    let low₇ = low₆ + byte_of x 1 * 2 ^ 48 in
    rw
      (
        byte₆,
        byte₅,
        byte₄,
        byte₃,
        byte₂,
        byte₁,
        byte₀,
        bit_or_add 8 (byte_of x 6) low₁ (omega arith),
        bit_or_add 16 (byte_of x 5) low₂ (omega arith),
        bit_or_add 24 (byte_of x 4) low₃ (omega arith),
        bit_or_add 32 (byte_of x 3) low₄ (omega arith),
        bit_or_add 40 (byte_of x 2) low₅ (omega arith),
        bit_or_add 48 (byte_of x 1) low₆ (omega arith),
      )
      (bit_or_add 56 (byte_of x 0) low₇ (omega arith))
