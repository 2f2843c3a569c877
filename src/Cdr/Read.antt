-- ===== src/Cdr/Read.antt =====
-- The operators `>>` and `copy_arr` of CdrDeserializationBuffer
-- (rmw_gurumdds_cpp/src/cdr_deser_buffer.cpp). `sys` is the byte order of the system, and `swap`
-- the field `swap_`.
use rmw_gurumdds.Base.{
  ℕ, zero, suc, ◌-◌, ◌*◌, ◌%◌, ◌^◌, Bool, List, [], ◌∷◌, map, ◌==◌, if◌then◌else◌, take, drop,
  Result, ok, err, not_null_terminated, ◌>>=◌,
}
use rmw_gurumdds.Cdr.Memory.{Endian, word_value}
use rmw_gurumdds.Cdr.Swap.{bswap32}
use rmw_gurumdds.Cdr.Words.{Width, bytes, w8, w16, w32, w64, swap_word}
use rmw_gurumdds.Cdr.Buffer.{CdrBuffer, roundup, fetch}

-- The last byte of a list that is not empty: `str[str_size - 1]`.
abbrev pub last : List ℕ → ℕ
last [] = 0
last (b ∷ []) = b
last (b ∷ c ∷ bs) = last (c ∷ bs)

-- The byte swap of each overload of `copy_arr`; the one for `uint64_t` calls `bswap32`, which
-- takes the low 32 bits of its argument.
unfoldable pub swap_element : Width → ℕ → ℕ
unfolding swap_word
swap_element w64 v = bswap32 (v % 2 ^ 32)
swap_element w v = swap_word w v

-- `n` words of an array in memory.
unfoldable pub array_words : Endian → Width → ℕ → List ℕ → List ℕ
array_words sys w zero bs = []
array_words sys w (suc n) bs =
    word_value sys (take (bytes w) bs) ∷ array_words sys w n (drop (bytes w) bs)

module _ (sys : Endian) (swap : Bool) where
  unfoldable pub read_word : Width → CdrBuffer → Result (ℕ × CdrBuffer)
  read_word w d = do
    d ← roundup (bytes w) d
    (bs, d) ← fetch (bytes w) d
    let dst = word_value sys bs
    ok (if swap then swap_word w dst else dst, d)

  unfoldable pub string_chars : ℕ → CdrBuffer → Result (List ℕ × CdrBuffer)
  string_chars str_size d = do
    (str, d) ← fetch str_size d
    if last str == 0 then ok (take (str_size - 1) str, d) else err not_null_terminated

  unfoldable pub string_rest : ℕ → CdrBuffer → Result (List ℕ × CdrBuffer)
  unfolding string_chars
  string_rest str_size d = do
    d ← roundup (bytes w8) d
    if str_size == 0 then ok ([], d) else string_chars str_size d

  -- `std::string`
  unfoldable pub read_string : CdrBuffer → Result (List ℕ × CdrBuffer)
  read_string d = do (str_size, d) ← read_word w32 d; string_rest str_size d

  unfoldable pub u16string_units : ℕ → CdrBuffer → Result (List ℕ × CdrBuffer)
  u16string_units str_size d = do
    (bs, d) ← fetch (str_size * bytes w16) d
    let str = array_words sys w16 str_size bs
    ok (if swap then map (swap_word w16) str else str, d)

  unfoldable pub u16string_rest : ℕ → CdrBuffer → Result (List ℕ × CdrBuffer)
  unfolding u16string_units
  u16string_rest str_size d = do
    d ← roundup (bytes w16) d
    if str_size == 0 then ok ([], d) else u16string_units str_size d

  -- `std::u16string`
  unfoldable pub read_u16string : CdrBuffer → Result (List ℕ × CdrBuffer)
  read_u16string d = do (str_size, d) ← read_word w32 d; u16string_rest str_size d

  unfoldable pub array_elements : Width → ℕ → CdrBuffer → Result (List ℕ × CdrBuffer)
  array_elements w cnt d = do
    d ← roundup (bytes w) d
    (bs, d) ← fetch (cnt * bytes w) d
    let src = array_words sys w cnt bs
    ok (if swap then map (swap_element w) src else src, d)

  -- The four overloads of `copy_arr`.
  unfoldable pub copy_arr_from : Width → ℕ → CdrBuffer → Result (List ℕ × CdrBuffer)
  unfolding array_elements
  copy_arr_from w cnt d = if cnt == 0 then ok ([], d) else array_elements w cnt d
