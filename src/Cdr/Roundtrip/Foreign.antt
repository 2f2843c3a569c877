-- ===== src/Cdr/Roundtrip/Foreign.antt =====
-- Arrays of `uint64_t` from a system of the other byte order: `copy_arr` of
-- rmw_gurumdds_cpp/src/cdr_deser_buffer.cpp.
use rmw_gurumdds.Base.{ℕ, ◌+◌, ◌*◌, ◌/◌, ◌%◌, ◌^◌, ◌<◌, ◌≡◌, ◌∙◌, ap, true, arith}
use rmw_gurumdds.Cdr.Memory.{Endian, big, little, le_bytes, le_value, word_bytes, word_value}
use rmw_gurumdds.Cdr.Words.{w64, differs}
use rmw_gurumdds.Cdr.Swap.{bswap32, bswap32_sum}
use rmw_gurumdds.Cdr.Read.{swap_element}
use mathlib.Core.Bool.{false≢true}
use mathlib.Core.List.{reverse}

high_half :
    (v : ℕ) → v < 256 ^ 8 → bswap32 (le_value (reverse (le_bytes 8 v)) % 2 ^ 32) ≡ v / 2 ^ 32
unfolding le_value le_bytes
high_half v h =
    let r : ℕ =
      v / 256 / 256 / 256 / 256 / 256 / 256 / 256 % 256
      + 256
        * (v / 256 / 256 / 256 / 256 / 256 / 256 % 256
            + 256
              * (v / 256 / 256 / 256 / 256 / 256 % 256
                  + 256 * (v / 256 / 256 / 256 / 256 % 256))) in
    ap bswap32 {x = le_value (reverse (le_bytes 8 v)) % 2 ^ 32} {y = r} (omega arith)
    ∙ bswap32_sum r (omega arith)
    ∙ omega arith

-- Of a 64-bit word that was written as an element of a uint64_t array on a system of the other
-- byte order, the element that the array copy makes is the high half alone: the low 32 bits are
-- lost.
pub swap_element-w64 :
    (from to : Endian) (v : ℕ)
    → differs from to ≡ true
    → v < 2 ^ 64
    → swap_element w64 (word_value to (word_bytes from 8 v)) ≡ v / 2 ^ 32
unfolding swap_element word_value word_bytes
swap_element-w64 big big v h lt = absurd (false≢true h)
swap_element-w64 little little v h lt = absurd (false≢true h)
swap_element-w64 big little v h lt = high_half v (omega arith)
swap_element-w64 little big v h lt = high_half v (omega arith)
