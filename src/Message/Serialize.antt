-- ===== src/Message/Serialize.antt =====
-- MessageSerializer for the C++ type support (LANGUAGE_KIND is CXX) of
-- rmw_gurumdds_cpp/include/rmw_gurumdds_cpp/message_serializer.inl. `serialize` is SERIALIZE.
use rmw_gurumdds.Base.{
  ℕ, zero, suc, ◌%◌, ◌^◌, Bool, Option, none, some, if◌then◌else◌, List, take, Result, ok, err,
  ill_typed, unreachable_type, ◌>>=◌,
}
use mathlib.Core.Option
use rmw_gurumdds.Cdr.Memory.{Endian}
use rmw_gurumdds.Cdr.Words.{Width, w8, w16, w32, w64}
use rmw_gurumdds.Cdr.Buffer.{CdrBuffer, roundup}
use rmw_gurumdds.Cdr.Write.{write_word, write_string, write_u16string, copy_arr_to}
use rmw_gurumdds.Message.Types.{
  TypeId, boolean, char, octet, uint8, int8, uint16, int16, float, uint32, int32, double, uint64,
  int64, wchar, string, wstring, message, other, Shape, is_sequence, member, Members, no_members,
  members, Elem, flag, word, text, wide_text, struct, Elems, nil, cons, Fields, no_fields, fields,
  count, words,
}

-- `for (uint32_t i = 0; i < size; i++)` over the elements of a member.
unfoldable pub write_items :
    (Elem → CdrBuffer → Result CdrBuffer) → ℕ → Elems → CdrBuffer → Result CdrBuffer
write_items write zero es b = ok b
write_items write (suc n) nil b = err ill_typed
write_items write (suc n) (cons e es) b = write e b >>= write_items write n es

module _ (sys : Endian) (serialize : Bool) where
  unfoldable pub write_size : Shape → ℕ → CdrBuffer → Result CdrBuffer
  write_size sh size b = if is_sequence sh then write_word sys serialize w32 size b else ok b

  -- The elements one by one, behind their number where the member is a sequence.
  unfoldable pub serialize_each :
      (Elem → CdrBuffer → Result CdrBuffer) → Shape → Elems → CdrBuffer → Result CdrBuffer
  unfolding write_size write_items
  serialize_each write sh es b =
      let size = count es % 2 ^ 32 in
      if sh.is_array
      then (write_size sh size b >>= write_items write size es)
      else write_items write 1 es b

  unfoldable pub write_boolean : Elem → CdrBuffer → Result CdrBuffer
  write_boolean (flag v) b = write_word sys serialize w8 (if v then 1 else 0) b
  write_boolean _ b = err ill_typed

  -- A sequence is a `std::vector<bool>`, whose loop is not bounded by the 32-bit size.
  unfoldable pub serialize_boolean : Shape → Elems → CdrBuffer → Result CdrBuffer
  unfolding write_size write_items
  serialize_boolean sh es b =
      if sh.is_array
      then (write_size sh (count es % 2 ^ 32) b
          >>= write_items write_boolean (if is_sequence sh then count es else count es % 2 ^ 32) es)
      else write_items write_boolean 1 es b

  unfoldable pub write_wchar : Elem → CdrBuffer → Result CdrBuffer
  write_wchar (word v) b = write_word sys serialize w16 v b
  write_wchar _ b = err ill_typed

  unfoldable pub serialize_wchar : Shape → Elems → CdrBuffer → Result CdrBuffer
  serialize_wchar = serialize_each write_wchar

  unfoldable pub write_text : Elem → CdrBuffer → Result CdrBuffer
  write_text (text cs) b = write_string sys serialize cs b
  write_text _ b = err ill_typed

  unfoldable pub serialize_string : Shape → Elems → CdrBuffer → Result CdrBuffer
  serialize_string = serialize_each write_text

  unfoldable pub write_wide_text : Elem → CdrBuffer → Result CdrBuffer
  write_wide_text (wide_text cs) b = write_u16string sys serialize cs b
  write_wide_text _ b = err ill_typed

  unfoldable pub serialize_wstring : Shape → Elems → CdrBuffer → Result CdrBuffer
  serialize_wstring = serialize_each write_wide_text

  unfoldable pub write_primitive : Width → Elem → CdrBuffer → Result CdrBuffer
  write_primitive w (word v) b = write_word sys serialize w v b
  write_primitive w _ b = err ill_typed

  unfoldable pub copy_words : Width → Option (List ℕ) → CdrBuffer → Result CdrBuffer
  copy_words w (some vs) b = copy_arr_to sys serialize w vs b
  copy_words w none b = err ill_typed

  -- `serialize_primitive<T>`: an array is copied as a block. `size` is 32 bits wide.
  unfoldable pub serialize_primitive : Width → Shape → Elems → CdrBuffer → Result CdrBuffer
  unfolding write_size write_items
  serialize_primitive w sh es b =
      let size = count es % 2 ^ 32 in
      if sh.is_array
      then (write_size sh size b >>= copy_words w (Option.map (take size) (words es)))
      else write_items (write_primitive w) 1 es b

  unfoldable pub write_struct :
      (Fields → CdrBuffer → Result CdrBuffer) → Elem → CdrBuffer → Result CdrBuffer
  write_struct write (struct fs) b = write fs b
  write_struct write _ b = err ill_typed

  unfoldable pub serialize_struct_arr :
      (Fields → CdrBuffer → Result CdrBuffer) → Shape → Elems → CdrBuffer → Result CdrBuffer
  serialize_struct_arr write = serialize_each (write_struct write)

  -- The switch on `type_id_`; `nested` serializes the message type that the member names.
  unfoldable pub serialize_member :
      TypeId
      → (Fields → CdrBuffer → Result CdrBuffer)
      → Shape
      → Elems
      → CdrBuffer
      → Result CdrBuffer
  serialize_member boolean nested = serialize_boolean
  serialize_member char nested = serialize_primitive w8
  serialize_member octet nested = serialize_primitive w8
  serialize_member uint8 nested = serialize_primitive w8
  serialize_member int8 nested = serialize_primitive w8
  serialize_member uint16 nested = serialize_primitive w16
  serialize_member int16 nested = serialize_primitive w16
  serialize_member float nested = serialize_primitive w32
  serialize_member uint32 nested = serialize_primitive w32
  serialize_member int32 nested = serialize_primitive w32
  serialize_member double nested = serialize_primitive w64
  serialize_member uint64 nested = serialize_primitive w64
  serialize_member int64 nested = serialize_primitive w64
  serialize_member wchar nested = serialize_wchar
  serialize_member string nested = serialize_string
  serialize_member wstring nested = serialize_wstring
  serialize_member message nested = serialize_struct_arr nested
  serialize_member other nested = λ sh es b. err unreachable_type

  -- The loop over the members, on a nested message (`roundup_` is false there).
  unfoldable pub serialize_members : Members → Fields → CdrBuffer → Result CdrBuffer
  serialize_members no_members fs b = ok b
  serialize_members (members (member t sh nested) ms) no_fields b = err ill_typed
  serialize_members (members (member t sh nested) ms) (fields es fs) b =
      serialize_member t (serialize_members nested) sh es b >>= serialize_members ms fs

  -- `serialize`, with `roundup_` as its last argument there.
  unfoldable pub serialize_message : Members → Fields → Bool → CdrBuffer → Result CdrBuffer
  serialize_message ms fs roundup_ b = do
    b ← serialize_members ms fs b
    if roundup_ then roundup 4 b else ok b
