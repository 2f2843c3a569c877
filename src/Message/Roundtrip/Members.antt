-- ===== src/Message/Roundtrip/Members.antt =====
-- Whole members and whole messages.
use rmw_gurumdds.Base.{ℕ, Bool, Result, ok, ◌>>=◌, >>=-ok}
use rmw_gurumdds.Cdr.Memory.{Endian}
use rmw_gurumdds.Cdr.Words.{w8, w16, w32, w64, differs}
use rmw_gurumdds.Cdr.Buffer.{CdrBuffer}
use rmw_gurumdds.Cdr.Codec.{Codec}
use rmw_gurumdds.Cdr.Codec.Steps.{pure-Codec}
use rmw_gurumdds.Cdr.Codec.Bind.{bind-Codec}
use rmw_gurumdds.Cdr.Codec.Align.{reader-Codec}
use rmw_gurumdds.Message.Types.{
  TypeId, boolean, char, octet, uint8, int8, uint16, int16, float, uint32, int32, double, uint64,
  int64, wchar, string, wstring, message, other, Shape, member, Members, no_members, members, Elems,
  Fields, no_fields, fields, count,
}
use rmw_gurumdds.Message.Serialize.{
  serialize_wchar, serialize_string, serialize_wstring, serialize_struct_arr, serialize_member,
  serialize_members,
}
use rmw_gurumdds.Message.Deserialize.{
  read_wchar, read_string_member, read_wstring, read_struct_arr, deserialize_member, deserialize,
}
use rmw_gurumdds.Message.Typing.{
  group, ElemOk, EachOk, items_end, members_end, CountOk, GroupOk, HasType,
}
use rmw_gurumdds.Message.Roundtrip.Items.{each-Codec}
use rmw_gurumdds.Message.Roundtrip.Elements.{wchar-Codec, text-Codec, wide_text-Codec, struct-Codec}
use rmw_gurumdds.Message.Roundtrip.Blocks.{primitives-Codec, flags-Codec}

module _ (from to : Endian) (accepts : Shape → ℕ → Bool) where
  -- `nested` stands for the two functions of the nested message type.
  member-Codec :
      (t : TypeId) {Nested : Fields → Type 0} {nested : Fields → ℕ → ℕ}
      {write : Bool → Fields → CdrBuffer → Result CdrBuffer}
      {read : CdrBuffer → Result (Fields × CdrBuffer)}
      (inner : (fs : Fields) → Nested fs → Codec (λ s b. write s fs b) (nested fs) read fs)
      (sh : Shape) (es : Elems)
      → GroupOk from to (group t) sh
      → CountOk accepts (group t) sh (count es)
      → EachOk (ElemOk (group t) Nested) es
      → Codec
          (λ s b. serialize_member from s t (write s) sh es b)
          (items_end (group t) nested sh es)
          (deserialize_member to (differs from to) accepts t read sh)
          es
  unfolding serialize_member deserialize_member
  member-Codec char {Nested = N} {nested = n} inner sh es g c p =
      primitives-Codec from to accepts N n w8 sh es g c p
  member-Codec octet {Nested = N} {nested = n} inner sh es g c p =
      primitives-Codec from to accepts N n w8 sh es g c p
  member-Codec uint8 {Nested = N} {nested = n} inner sh es g c p =
      primitives-Codec from to accepts N n w8 sh es g c p
  member-Codec int8 {Nested = N} {nested = n} inner sh es g c p =
      primitives-Codec from to accepts N n w8 sh es g c p
  member-Codec uint16 {Nested = N} {nested = n} inner sh es g c p =
      primitives-Codec from to accepts N n w16 sh es g c p
  member-Codec int16 {Nested = N} {nested = n} inner sh es g c p =
      primitives-Codec from to accepts N n w16 sh es g c p
  member-Codec float {Nested = N} {nested = n} inner sh es g c p =
      primitives-Codec from to accepts N n w32 sh es g c p
  member-Codec uint32 {Nested = N} {nested = n} inner sh es g c p =
      primitives-Codec from to accepts N n w32 sh es g c p
  member-Codec int32 {Nested = N} {nested = n} inner sh es g c p =
      primitives-Codec from to accepts N n w32 sh es g c p
  member-Codec double {Nested = N} {nested = n} inner sh es g c p =
      primitives-Codec from to accepts N n w64 sh es g c p
  member-Codec uint64 {Nested = N} {nested = n} inner sh es g c p =
      primitives-Codec from to accepts N n w64 sh es g c p
  member-Codec int64 {Nested = N} {nested = n} inner sh es g c p =
      primitives-Codec from to accepts N n w64 sh es g c p
  member-Codec boolean {Nested = N} {nested = n} inner sh es g c p =
      flags-Codec from to accepts N n sh es c p
  member-Codec wchar {Nested = N} {nested = n} inner sh es g c p =
      unfold serialize_wchar read_wchar in
      each-Codec (wchar-Codec from to accepts N n) from to accepts sh es c.0 c.1 p
  member-Codec string {Nested = N} {nested = n} inner sh es g c p =
      unfold serialize_string read_string_member in
      each-Codec (text-Codec from to accepts N n) from to accepts sh es c.0 c.1 p
  member-Codec wstring {Nested = N} {nested = n} inner sh es g c p =
      unfold serialize_wstring read_wstring in
      each-Codec (wide_text-Codec from to accepts N n) from to accepts sh es c.0 c.1 p
  member-Codec message {Nested = N} {nested = n} inner sh es g c p =
      unfold serialize_struct_arr read_struct_arr in
      each-Codec (struct-Codec from to accepts N n inner) from to accepts sh es c.0 c.1 p
  member-Codec other inner sh es g c p = absurd g

  -- For a value of a message type, the loop over the members and the reading loop fit together:
  -- counting moves the offset by the size, writing with room returns, stays between the start and
  -- the end, and is read back from every copy, and writing without room throws out of buffer.
  pub members-Codec :
      (ms : Members) (fs : Fields)
      → HasType from to accepts ms fs
      → Codec
          (λ s b. serialize_members from s ms fs b)
          (members_end ms fs)
          (deserialize to (differs from to) accepts ms)
          fs
  unfolding serialize_members deserialize members_end HasType
  members-Codec no_members no_fields h = pure-Codec no_fields
  members-Codec no_members (fields es fs) h = absurd h
  members-Codec (members (member t sh inner) ms) no_fields h = absurd h
  members-Codec (members (member t sh inner) ms) (fields es fs) h =
      bind-Codec
        (λ x d. deserialize to (differs from to) accepts ms d >>= λ q. ok (fields x q.0, q.1))
        (member-Codec t (λ gs ok_. members-Codec inner gs ok_) sh es h.0 h.1 h.2)
        (reader-Codec (members-Codec ms fs h.3) (λ d d' r. >>=-ok _ r))
