-- ===== src/Message/Typing.antt =====
-- The values that a message description admits, and where they end in a buffer.
use rmw_gurumdds.Base.{ℕ, suc, ◌+◌, ◌^◌, ◌<◌, ◌≡◌, Bool, true, if◌then◌else◌, length, All}
use rmw_gurumdds.Cdr.Memory.{Endian}
use rmw_gurumdds.Cdr.Words.{Width, w8, w16, w32, w64}
use rmw_gurumdds.Cdr.Roundtrip.Words.{word_end}
use rmw_gurumdds.Cdr.Roundtrip.Strings.{string_end}
use rmw_gurumdds.Cdr.Roundtrip.Arrays.{Fits, CanCopy, elements_end, u16string_end}
use rmw_gurumdds.Message.Types.{
  TypeId, boolean, char, octet, uint8, int8, uint16, int16, float, uint32, int32, double, uint64,
  int64, wchar, string, wstring, message, other, Shape, is_sequence, member, Members, no_members,
  members, Elem, flag, word, text, wide_text, struct, Elems, nil, cons, Fields, no_fields, fields,
  count,
}

-- How the switch on the type groups the types.
pub data Group : Type 0 where
  flags wchars texts wide_texts structs unknown : Group
  primitives : Width → Group

abbrev pub group : TypeId → Group
group boolean = flags
group char = primitives w8
group octet = primitives w8
group uint8 = primitives w8
group int8 = primitives w8
group uint16 = primitives w16
group int16 = primitives w16
group float = primitives w32
group uint32 = primitives w32
group int32 = primitives w32
group double = primitives w64
group uint64 = primitives w64
group int64 = primitives w64
group wchar = wchars
group string = texts
group wstring = wide_texts
group message = structs
group other = unknown

-- An element of a group; `Nested` are the values of the message type that the member names.
abbrev pub ElemOk : Group → (Fields → Type 0) → Elem → Type 0
ElemOk flags Nested (flag v) = Unit {0}
ElemOk (primitives w) Nested (word v) = Fits w v
ElemOk wchars Nested (word v) = Fits w16 v
ElemOk texts Nested (text cs) = length cs + 1 < 2 ^ 32
ElemOk wide_texts Nested (wide_text cs) = All (Fits w16) cs × (length cs < 2 ^ 32)
ElemOk structs Nested (struct fs) = Nested fs
ElemOk _ Nested _ = ⊥

abbrev pub EachOk : (Elem → Type 0) → Elems → Type 0
EachOk P nil = Unit {0}
EachOk P (cons e es) = P e × EachOk P es

-- The offset at which an element of the group ends if it begins at `o`.
abbrev pub elem_end : Group → (Fields → ℕ → ℕ) → Elem → ℕ → ℕ
elem_end flags nested e o = word_end w8 o
elem_end (primitives w) nested e o = word_end w o
elem_end wchars nested e o = word_end w16 o
elem_end texts nested (text cs) o = string_end cs o
elem_end wide_texts nested (wide_text cs) o = u16string_end cs o
elem_end structs nested (struct fs) o = nested fs o
elem_end _ nested _ o = o

abbrev pub each_end : (Elem → ℕ → ℕ) → Elems → ℕ → ℕ
each_end f nil o = o
each_end f (cons e es) o = each_end f es (f e o)

abbrev pub size_end : Shape → ℕ → ℕ
size_end sh o = if is_sequence sh then word_end w32 o else o

abbrev pub copied_to : Width → Elems → ℕ → ℕ
copied_to w nil o = o
copied_to w (cons e es) o = elements_end w (suc (count es)) o

abbrev pub items_end : Group → (Fields → ℕ → ℕ) → Shape → Elems → ℕ → ℕ
items_end (primitives w) nested sh es o =
    if sh.is_array
    then copied_to w es (size_end sh o)
    else each_end (elem_end (primitives w) nested) es o
items_end g nested sh es o =
    if sh.is_array
    then each_end (elem_end g nested) es (size_end sh o)
    else each_end (elem_end g nested) es o

-- The end of a nested message. It depends on the sizes in the value and on no byte.
unfoldable pub members_end : Members → Fields → ℕ → ℕ
members_end no_members fs o = o
members_end (members (member t sh nested) ms) no_fields o = o
members_end (members (member t sh nested) ms) (fields es fs) o =
    members_end ms fs (items_end (group t) (members_end nested) sh es o)

-- The number of elements that a member of the shape has.
abbrev pub CountOk : (Shape → ℕ → Bool) → Group → Shape → ℕ → Type 0
CountOk accepts flags sh n =
    (n < 2 ^ 32)
    × (if sh.is_array then (if is_sequence sh then Unit {0} else (n ≡ sh.array_size)) else (n ≡ 1))
CountOk accepts g sh n =
    (n < 2 ^ 32)
    × (if sh.is_array
        then (if is_sequence sh then (accepts sh n ≡ true) else (n ≡ sh.array_size))
        else (n ≡ 1))

abbrev pub GroupOk : Endian → Endian → Group → Shape → Type 0
GroupOk from to (primitives w) sh = if sh.is_array then CanCopy from to w else Unit {0}
GroupOk from to unknown sh = ⊥
GroupOk from to _ sh = Unit {0}

-- The values of a message type that can go from a system to another.
unfoldable pub HasType : Endian → Endian → (Shape → ℕ → Bool) → Members → Fields → Type 0
HasType from to accepts no_members no_fields = Unit {0}
HasType from to accepts no_members (fields es fs) = ⊥
HasType from to accepts (members (member t sh nested) ms) no_fields = ⊥
HasType from to accepts (members (member t sh nested) ms) (fields es fs) =
    GroupOk from to (group t) sh
    × CountOk accepts (group t) sh (count es)
    × EachOk (ElemOk (group t) (HasType from to accepts nested)) es
    × HasType from to accepts ms fs
