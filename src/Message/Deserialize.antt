-- ===== src/Message/Deserialize.antt =====
-- MessageDeserializer for the C++ type support (LANGUAGE_KIND is CXX) of
-- rmw_gurumdds_cpp/include/rmw_gurumdds_cpp/message_deserializer.inl.
use rmw_gurumdds.Base.{
  ℕ, zero, suc, Bool, not, if◌then◌else◌, ◌==◌, Result, ok, err, resize_refused, ◌>>=◌,
}
use rmw_gurumdds.Cdr.Memory.{Endian}
use rmw_gurumdds.Cdr.Words.{Width, w8, w16, w32, w64}
use rmw_gurumdds.Cdr.Buffer.{CdrBuffer}
use rmw_gurumdds.Cdr.Read.{read_word, read_string, read_u16string, copy_arr_from}
use rmw_gurumdds.Message.Types.{
  TypeId, boolean, char, octet, uint8, int8, uint16, int16, float, uint32, int32, double, uint64,
  int64, wchar, string, wstring, message, other, Shape, is_sequence, member, Members, no_members,
  members, Elem, flag, word, text, wide_text, struct, Elems, nil, cons, Fields, no_fields, fields,
  of_words,
}

-- A loop that reads the elements one by one.
unfoldable pub read_items :
    (CdrBuffer → Result (Elem × CdrBuffer)) → ℕ → CdrBuffer → Result (Elems × CdrBuffer)
read_items read zero d = ok (nil, d)
read_items read (suc n) d = do (e, d) ← read d; (es, d) ← read_items read n d; ok (cons e es, d)

-- `accepts sh n` says whether `resize_function` of a member of this shape, which is generated code,
-- takes `n` elements; where it does not, it throws.
module _ (sys : Endian) (swap : Bool) (accepts : Shape → ℕ → Bool) where
  -- The number of elements: read and given to `resize_function`, or that of the fixed array.
  unfoldable pub read_size : Shape → CdrBuffer → Result (ℕ × CdrBuffer)
  read_size sh d =
      if is_sequence sh
      then (read_word sys swap w32 d >>= λ p. if accepts sh p.0 then ok p else err resize_refused)
      else ok (sh.array_size, d)

  unfoldable pub read_each :
      (CdrBuffer → Result (Elem × CdrBuffer)) → Shape → CdrBuffer → Result (Elems × CdrBuffer)
  unfolding read_size read_items
  read_each read sh d =
      if sh.is_array then (read_size sh d >>= λ p. read_items read p.0 p.1) else read_items read 1 d

  unfoldable pub read_flag : CdrBuffer → Result (Elem × CdrBuffer)
  read_flag d = do (data_, d) ← read_word sys swap w8 d; ok (flag (not (data_ == 0)), d)

  -- `std::vector<bool>::resize`, which has no bound.
  unfoldable pub read_boolean_size : Shape → CdrBuffer → Result (ℕ × CdrBuffer)
  read_boolean_size sh d =
      if is_sequence sh then read_word sys swap w32 d else ok (sh.array_size, d)

  unfoldable pub read_boolean : Shape → CdrBuffer → Result (Elems × CdrBuffer)
  unfolding read_boolean_size read_items
  read_boolean sh d =
      if sh.is_array
      then (read_boolean_size sh d >>= λ p. read_items read_flag p.0 p.1)
      else read_items read_flag 1 d

  unfoldable pub read_word_elem : Width → CdrBuffer → Result (Elem × CdrBuffer)
  read_word_elem w d = do (v, d) ← read_word sys swap w d; ok (word v, d)

  unfoldable pub read_wchar : Shape → CdrBuffer → Result (Elems × CdrBuffer)
  read_wchar = read_each (read_word_elem w16)

  unfoldable pub read_text : CdrBuffer → Result (Elem × CdrBuffer)
  read_text d = do (cs, d) ← read_string sys swap d; ok (text cs, d)

  unfoldable pub read_string_member : Shape → CdrBuffer → Result (Elems × CdrBuffer)
  read_string_member = read_each read_text

  unfoldable pub read_wide_text : CdrBuffer → Result (Elem × CdrBuffer)
  read_wide_text d = do (cs, d) ← read_u16string sys swap d; ok (wide_text cs, d)

  unfoldable pub read_wstring : Shape → CdrBuffer → Result (Elems × CdrBuffer)
  read_wstring = read_each read_wide_text

  unfoldable pub read_words : Width → ℕ → CdrBuffer → Result (Elems × CdrBuffer)
  read_words w size d = do (vs, d) ← copy_arr_from sys swap w size d; ok (of_words vs, d)

  -- `read_primitive<PrimitiveT>`
  unfoldable pub read_primitive : Width → Shape → CdrBuffer → Result (Elems × CdrBuffer)
  unfolding read_size read_items
  read_primitive w sh d =
      if sh.is_array
      then (read_size sh d >>= λ p. read_words w p.0 p.1)
      else read_items (read_word_elem w) 1 d

  unfoldable pub read_struct :
      (CdrBuffer → Result (Fields × CdrBuffer)) → CdrBuffer → Result (Elem × CdrBuffer)
  read_struct read d = do (fs, d) ← read d; ok (struct fs, d)

  unfoldable pub read_struct_arr :
      (CdrBuffer → Result (Fields × CdrBuffer)) → Shape → CdrBuffer → Result (Elems × CdrBuffer)
  read_struct_arr read = read_each (read_struct read)

  -- The switch on `type_id_`; a member of unknown type is left as it is.
  unfoldable pub deserialize_member :
      TypeId
      → (CdrBuffer → Result (Fields × CdrBuffer))
      → Shape
      → CdrBuffer
      → Result (Elems × CdrBuffer)
  deserialize_member boolean nested = read_boolean
  deserialize_member char nested = read_primitive w8
  deserialize_member octet nested = read_primitive w8
  deserialize_member uint8 nested = read_primitive w8
  deserialize_member int8 nested = read_primitive w8
  deserialize_member uint16 nested = read_primitive w16
  deserialize_member int16 nested = read_primitive w16
  deserialize_member float nested = read_primitive w32
  deserialize_member uint32 nested = read_primitive w32
  deserialize_member int32 nested = read_primitive w32
  deserialize_member double nested = read_primitive w64
  deserialize_member uint64 nested = read_primitive w64
  deserialize_member int64 nested = read_primitive w64
  deserialize_member wchar nested = read_wchar
  deserialize_member string nested = read_string_member
  deserialize_member wstring nested = read_wstring
  deserialize_member message nested = read_struct_arr nested
  deserialize_member other nested = λ sh d. ok (nil, d)

  -- `deserialize`: the loop over the members.
  unfoldable pub deserialize : Members → CdrBuffer → Result (Fields × CdrBuffer)
  deserialize no_members d = ok (no_fields, d)
  deserialize (members (member t sh nested) ms) d =
      deserialize_member t (deserialize nested) sh d >>= λ p.
      deserialize ms p.1 >>= λ q. ok (fields p.0 q.0, q.1)
