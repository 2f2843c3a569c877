-- ===== src/Cdr/Words.antt =====
-- The words that the buffers move (uint8_t to uint64_t), written on one system and read on another.
use rmw_gurumdds.Base.{
  ℕ, ◌+◌, ◌*◌, ◌/◌, ◌%◌, ◌^◌, ◌<◌, ◌≡◌, ◌∙◌, Bool, true, false, arith, if◌then◌else◌,
}
use rmw_gurumdds.Cdr.Memory.{
  Endian, big, little, le_bytes, le_value, word_bytes, word_value, word_value-word_bytes,
}
use rmw_gurumdds.Cdr.Swap.{bswap16, bswap32, bswap64, bswap16_sum, bswap32_sum, bswap64_sum}
use mathlib.Core.List.{reverse}

-- The four word types that the buffers move, and their `sizeof`.
pub data Width : Type 0 where
  w8 w16 w32 w64 : Width

abbrev pub bytes : Width → ℕ
bytes w8 = 1
bytes w16 = 2
bytes w32 = 4
bytes w64 = 8

-- What a reader applies to a word of the other byte order; a single byte is left alone.
unfoldable pub swap_word : Width → ℕ → ℕ
swap_word w8 v = v
swap_word w16 v = bswap16 v
swap_word w32 v = bswap32 v
swap_word w64 v = bswap64 v

swap_word-reverse :
    (w : Width) (v : ℕ)
    → v < 256 ^ bytes w
    → swap_word w (le_value (reverse (le_bytes (bytes w) v))) ≡ v
unfolding swap_word le_value le_bytes
swap_word-reverse w8 v h = omega arith
swap_word-reverse w16 v h =
    bswap16_sum (v / 256 % 256 + 256 * (v % 256 + 0)) (omega arith) ∙ omega arith
swap_word-reverse w32 v h =
    let r : ℕ =
      v / 256 / 256 / 256 % 256
      + 256 * (v / 256 / 256 % 256 + 256 * (v / 256 % 256 + 256 * (v % 256 + 0))) in
    bswap32_sum r (omega arith) ∙ omega arith
swap_word-reverse w64 v h =
    let high : ℕ =
      v / 256 / 256 / 256 % 256
      + 256 * (v / 256 / 256 % 256 + 256 * (v / 256 % 256 + 256 * (v % 256 + 0))) in
    let r : ℕ =
      v / 256 / 256 / 256 / 256 / 256 / 256 / 256 % 256
      + 256
        * (v / 256 / 256 / 256 / 256 / 256 / 256 % 256
            + 256
              * (v / 256 / 256 / 256 / 256 / 256 % 256
                  + 256 * (v / 256 / 256 / 256 / 256 % 256 + 256 * high))) in
    bswap64_sum r (omega arith) ∙ omega arith

-- `swap_ = (buf[1] != CDR_SYSTEM_ENDIAN)`
abbrev pub differs : Endian → Endian → Bool
differs big big = false
differs little little = false
differs _ _ = true

-- A word written on one system is read back on any other.
pub swap_word_lem :
    (from to : Endian) (w : Width) (v : ℕ)
    → v < 256 ^ bytes w
    → (if differs from to
        then swap_word w (word_value to (word_bytes from (bytes w) v))
        else word_value to (word_bytes from (bytes w) v))
      ≡ v
unfolding word_value word_bytes
swap_word_lem big big w v h = word_value-word_bytes big (bytes w) v h
swap_word_lem little little w v h = word_value-word_bytes little (bytes w) v h
swap_word_lem big little w v h = swap_word-reverse w v h
swap_word_lem little big w v h = swap_word-reverse w v h
