-- ===== src/Cdr/Buffer.antt =====
-- The state of a CDR buffer and what every operation on it is made of (class CdrBuffer of
-- rmw_gurumdds_cpp/src/cdr_buffer.cpp). `size_t` has 64 bits; its sums wrap.
use rmw_gurumdds.Base.{
  ℕ, ◌+◌, ◌-◌, ◌%◌, ◌^◌, bit_and, Bool, true, false, List, ltb, if◌then◌else◌, length, Option, none,
  some, Result, ok, err, out_of_buffer, buf_is_null, insufficient_buffer_size, [], ◌∷◌, ◌==◌, ◌/◌,
  ◌*◌,
}
use rmw_gurumdds.Cdr.Memory.{Mem, Endian, big, little, store, load}
use rmw_gurumdds.Cdr.Words.{Width, bytes}

-- `buf` is the address that `buf_` points to.
pub record CdrBuffer : Type 0 where
  pub mem : Mem
  pub buf : ℕ
  pub offset : ℕ
  pub size : ℕ

abbrev pub size_mod : ℕ
size_mod = 2 ^ 64

abbrev pub header_size : ℕ
header_size = 4

unfoldable pub get_offset : CdrBuffer → ℕ
get_offset b = b.offset

unfoldable pub advance : ℕ → CdrBuffer → CdrBuffer
advance cnt b = record b { offset = (b.offset + cnt) % size_mod }

-- `-offset_ & (align - 1)`
unfoldable pub padding : ℕ → ℕ → ℕ
padding align offset = bit_and ((size_mod - offset % size_mod) % size_mod) (align - 1)

unfoldable pub roundup : ℕ → CdrBuffer → Result CdrBuffer
unfolding advance
roundup align b =
    let count = padding align b.offset in
    if ltb b.size ((b.offset + count) % size_mod) then err out_of_buffer else ok (advance count b)

-- The common end of the operations `<<` and `copy_arr`: with SERIALIZE the bytes are checked for
-- room and stored, and without it they are only counted.
unfoldable pub append : Bool → List ℕ → CdrBuffer → Result CdrBuffer
unfolding advance
append true bs b =
    if ltb b.size ((b.offset + length bs) % size_mod)
    then err out_of_buffer
    else ok (advance (length bs) (record b { mem = store b.mem (b.buf + b.offset) bs }))
append false bs b = ok (advance (length bs) b)

-- The common end of the operations `>>`: the check, the bytes at `buf_ + offset_`, the advance.
unfoldable pub fetch : ℕ → CdrBuffer → Result (List ℕ × CdrBuffer)
unfolding advance
fetch n b =
    if ltb b.size ((b.offset + n) % size_mod)
    then err out_of_buffer
    else ok (load b.mem (b.buf + b.offset) n, advance n b)

-- `buf[CDR_HEADER_ENDIAN_IDX]`
abbrev pub endian_code : Endian → ℕ
endian_code big = 0
endian_code little = 1

-- The constructor of CdrSerializationBuffer<true>: `buf` is a pointer that may be null.
unfoldable pub serialization_buffer : Endian → Mem → Option ℕ → ℕ → Result CdrBuffer
serialization_buffer sys mem none size = err buf_is_null
serialization_buffer sys mem (some buf) size =
    if ltb size header_size
    then err insufficient_buffer_size
    else ok (record {
      mem = store mem buf (0 ∷ endian_code sys ∷ 0 ∷ 0 ∷ []);
      buf = buf + header_size;
      offset = 0;
      size = size - header_size;
    })

-- The constructor of CdrSerializationBuffer<false>: no memory, and no bound but that of `size_t`.
unfoldable pub counting_buffer : Mem → CdrBuffer
counting_buffer mem = record { mem = mem; buf = 0; offset = 0; size = size_mod - 1 }

-- The constructor of CdrDeserializationBuffer, with its field `swap_`.
unfoldable pub deserialization_buffer : Endian → Mem → ℕ → ℕ → Result (Bool × CdrBuffer)
deserialization_buffer sys mem buf size =
    if ltb size header_size
    then err insufficient_buffer_size
    else ok (
      (if mem (buf + 1) == endian_code sys then false else true),
      record { mem = mem; buf = buf + header_size; offset = 0; size = size - header_size },
    )

-- The first multiple of the width at or above an offset.
unfoldable pub align_up : Width → ℕ → ℕ
align_up w o = (o + (bytes w - 1)) / bytes w * bytes w
