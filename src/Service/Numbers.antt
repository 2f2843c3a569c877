-- ===== src/Service/Numbers.antt =====
-- Sequence numbers of requests (rmw_gurumdds_cpp/include/rmw_gurumdds_cpp/type_support_service.inl,
-- and the two take functions of rmw_gurumdds_cpp/src/rmw_client.cpp and rmw_service.cpp). An
-- `int64_t` is given by its 64 bits, a number below 2 ^ 64; the mask of the high half makes an
-- unsigned number of it.
use rmw_gurumdds.Base.{ℕ, ◌+◌, ◌*◌, ◌/◌, ◌%◌, ◌^◌, ◌<◌, ◌≡◌, ◌∙◌, ◌↔◌, bit_and, bit_or, arith}
use rmw_gurumdds.Base.Bits.{bit_or_add, bit_and_high, bit_and_low, bit_or_comm}

abbrev pub high_mask : ℕ
high_mask = 0xFFFFFFFF00000000

abbrev pub low_mask : ℕ
low_mask = 0x00000000FFFFFFFF

unfoldable pub ros_sn_to_dds_sn : ℕ → ℕ
ros_sn_to_dds_sn sn_ros =
    bit_or (bit_and sn_ros high_mask / 2 ^ 32) (bit_and sn_ros low_mask * 2 ^ 32 % 2 ^ 64)

unfoldable pub dds_sn_to_ros_sn : ℕ → ℕ
dds_sn_to_ros_sn sn_dds =
    bit_or (bit_and sn_dds low_mask * 2 ^ 32 % 2 ^ 64) (bit_and sn_dds high_mask / 2 ^ 32)

-- The two halves that `serialize_service_basic` writes.
unfoldable pub sn_high : ℕ → ℕ
sn_high sequence_number = bit_and sequence_number high_mask / 2 ^ 8 % 2 ^ 32

unfoldable pub sn_low : ℕ → ℕ
sn_low sequence_number = bit_and sequence_number low_mask

-- `((int64_t)sn_high) << 32 | sn_low`: what the extension of the sign adds is shifted out.
unfoldable pub joined_sn : ℕ → ℕ → ℕ
joined_sn high low = bit_or (high * 2 ^ 32 % 2 ^ 64) low

low_half : (n : ℕ) → bit_and n low_mask ≡ n % 2 ^ 32
low_half n = bit_and_low 32 n

high_half : (n : ℕ) → n < 2 ^ 64 → bit_and n high_mask ≡ n / 2 ^ 32 * 2 ^ 32
high_half n h =
    let split : n % 2 ^ 32 + n / 2 ^ 32 * 2 ^ 32 ≡ n = omega arith in
    let small : n % 2 ^ 32 < 2 ^ 32 = omega arith in
    ground (
      arith,
      split,
      bit_and_high 32 (n / 2 ^ 32) (n % 2 ^ 32) low_mask small,
      bit_and_low 32 (n / 2 ^ 32),
    )

-- Two halves of 32 bits, the higher one shifted up.
joined : (a b : ℕ) → b < 2 ^ 32 → bit_or b (a * 2 ^ 32) ≡ b + a * 2 ^ 32
joined a b h = bit_or_add 32 a b h

-- Both conversions exchange the two halves.
swap_halves :
    (n : ℕ)
    → n < 2 ^ 64
    → bit_or (bit_and n high_mask / 2 ^ 32) (bit_and n low_mask * 2 ^ 32 % 2 ^ 64)
      ≡ n / 2 ^ 32 + n % 2 ^ 32 * 2 ^ 32
swap_halves n h =
    let high : n / 2 ^ 32 * 2 ^ 32 / 2 ^ 32 ≡ n / 2 ^ 32 = omega arith in
    let low : n % 2 ^ 32 * 2 ^ 32 % 2 ^ 64 ≡ n % 2 ^ 32 * 2 ^ 32 = omega arith in
    rw (high_half n h, low_half n, high, low) (joined (n % 2 ^ 32) (n / 2 ^ 32) (omega arith))

pub ros_sn_to_dds_sn-swap :
    (n : ℕ) → n < 2 ^ 64 → ros_sn_to_dds_sn n ≡ n / 2 ^ 32 + n % 2 ^ 32 * 2 ^ 32
unfolding ros_sn_to_dds_sn
ros_sn_to_dds_sn-swap n h = swap_halves n h

pub dds_sn_to_ros_sn-swap :
    (n : ℕ) → n < 2 ^ 64 → dds_sn_to_ros_sn n ≡ n / 2 ^ 32 + n % 2 ^ 32 * 2 ^ 32
unfolding dds_sn_to_ros_sn
dds_sn_to_ros_sn-swap n h = bit_or_comm _ _ ∙ swap_halves n h

-- Both conversions of sequence numbers are inverse to each other on 64 bits.
pub dds_sn_to_ros_sn-ros_sn_to_dds_sn :
    (n : ℕ)
    → n < 2 ^ 64
    → (dds_sn_to_ros_sn (ros_sn_to_dds_sn n) ≡ n) × (ros_sn_to_dds_sn (dds_sn_to_ros_sn n) ≡ n)
dds_sn_to_ros_sn-ros_sn_to_dds_sn n h =
    let m = n / 2 ^ 32 + n % 2 ^ 32 * 2 ^ 32 in
    let small : m < 2 ^ 64 = omega arith in
    (
      rw (ros_sn_to_dds_sn-swap n h, dds_sn_to_ros_sn-swap m small) (omega arith),
      rw (dds_sn_to_ros_sn-swap n h, ros_sn_to_dds_sn-swap m small) (omega arith),
    )

pub joined_sn_sum : (a b : ℕ) → a < 2 ^ 32 → b < 2 ^ 32 → joined_sn a b ≡ a * 2 ^ 32 + b
unfolding joined_sn
joined_sn_sum a b p q =
    let same : a * 2 ^ 32 % 2 ^ 64 ≡ a * 2 ^ 32 = omega arith in
    rw same (bit_or_comm (a * 2 ^ 32) b ∙ joined a b q ∙ omega arith)

pub sn_high_sum : (n : ℕ) → n < 2 ^ 64 → sn_high n ≡ n / 2 ^ 32 % 2 ^ 8 * 2 ^ 24
unfolding sn_high
sn_high_sum n h = rw (high_half n h) (omega arith)

pub sn_low_sum : (n : ℕ) → sn_low n ≡ n % 2 ^ 32
unfolding sn_low
sn_low_sum n = low_half n

-- Of the two halves that serialize_service_basic writes for a sequence number, the take functions
-- make that number again exactly if it is below 2 ^ 32.
pub joined_sn-sn_high : (n : ℕ) → n < 2 ^ 64 → (joined_sn (sn_high n) (sn_low n) ≡ n) ↔ (n < 2 ^ 32)
joined_sn-sn_high n h =
    let total : joined_sn (sn_high n) (sn_low n)
        ≡ n / 2 ^ 32 % 2 ^ 8 * 2 ^ 24 * 2 ^ 32 + n % 2 ^ 32 =
      rw (sn_high_sum n h, sn_low_sum n)
        (joined_sn_sum (n / 2 ^ 32 % 2 ^ 8 * 2 ^ 24) (n % 2 ^ 32) (omega arith) (omega arith)) in
    (λ e. omega (arith, total, e), λ small. omega (arith, total))
