-- ===== src/Cdr/Write.antt =====
-- The operators `<<` and `copy_arr` of CdrSerializationBuffer
-- (rmw_gurumdds_cpp/include/rmw_gurumdds_cpp/cdr_serialization_buffer.inl). `serialize` is the
-- template's argument SERIALIZE and `sys` the byte order of the system.
use rmw_gurumdds.Base.{
  ℕ, ◌+◌, ◌%◌, ◌^◌, Bool, List, [], ◌∷◌, ◌++◌, ◌==◌, if◌then◌else◌, length, Result, ok, ◌>>=◌,
}
use rmw_gurumdds.Cdr.Memory.{Endian, word_bytes}
use rmw_gurumdds.Cdr.Words.{Width, bytes, w8, w16, w32}
use rmw_gurumdds.Cdr.Buffer.{CdrBuffer, roundup, append}

module _ (sys : Endian) where
  -- The words of an array as they lie in memory.
  unfoldable pub array_bytes : Width → List ℕ → List ℕ
  array_bytes w [] = []
  array_bytes w (v ∷ vs) = word_bytes sys (bytes w) v ++ array_bytes w vs

  module _ (serialize : Bool) where
    -- The four overloads for `uint8_t` to `uint64_t`.
    unfoldable pub write_word : Width → ℕ → CdrBuffer → Result CdrBuffer
    write_word w src b = do
      b ← roundup (bytes w) b
      append serialize (word_bytes sys (bytes w) src) b

    -- `std::string`: the size with the terminator, the characters, the terminator.
    unfoldable pub write_string : List ℕ → CdrBuffer → Result CdrBuffer
    write_string src b = do
      b ← write_word w32 ((length src + 1) % 2 ^ 32) b
      b ← roundup (bytes w8) b
      append serialize (src ++ 0 ∷ []) b

    -- `std::u16string`: the number of units, and the units.
    unfoldable pub write_u16string : List ℕ → CdrBuffer → Result CdrBuffer
    write_u16string src b = do
      b ← write_word w32 (length src % 2 ^ 32) b
      b ← roundup (bytes w16) b
      append serialize (array_bytes w16 src) b

    -- The four overloads of `copy_arr`.
    unfoldable pub copy_arr_to : Width → List ℕ → CdrBuffer → Result CdrBuffer
    copy_arr_to w arr b =
        let rest = roundup (bytes w) b >>= append serialize (array_bytes w arr) in
        if length arr == 0 then ok b else rest
