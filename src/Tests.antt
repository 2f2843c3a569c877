-- ===== src/Tests.antt =====
-- Runs of the model at concrete inputs, and the theorems at those inputs.
use rmw_gurumdds.Base.{
  ℕ, ◌+◌, ◌*◌, ◌/◌, ◌^◌, ◌≡◌, refl, Bool, true, false, [], ◌∷◌, Option, none, some, ok, arith, ◌==◌,
  if◌then◌else◌,
}
use rmw_gurumdds.Cdr.Memory.{Mem, big, little, word_bytes, word_value}
use rmw_gurumdds.Cdr.Words.{w32, w64}
use rmw_gurumdds.Cdr.Buffer.{align_up}
use rmw_gurumdds.Cdr.Codec.{Codec}
use rmw_gurumdds.Cdr.Write.{write_word, write_string, write_u16string, copy_arr_to}
use rmw_gurumdds.Cdr.Read.{swap_element, read_word, read_string, read_u16string, copy_arr_from}
use rmw_gurumdds.Cdr.Roundtrip.Words.{word_end, word-Codec}
use rmw_gurumdds.Cdr.Roundtrip.Strings.{string_end, string-Codec}
use rmw_gurumdds.Cdr.Roundtrip.Foreign.{swap_element-w64}
use rmw_gurumdds.Cdr.Roundtrip.Arrays.{u16string_end, copied_end, u16string-Codec, copy_arr-Codec}
use rmw_gurumdds.Message.Types.{
  Shape, uint16, string, int32, message, boolean, member, Members, no_members, members, Elem, flag,
  word, text, struct, nil, cons, Fields, no_fields, fields, count,
}
use rmw_gurumdds.Message.Serialize.{serialize_members}
use rmw_gurumdds.Message.Deserialize.{deserialize}
use rmw_gurumdds.Message.Typing.{HasType, members_end}
use rmw_gurumdds.Message.Roundtrip.Members.{members-Codec}
use rmw_gurumdds.Message.Convert.{get_serialized_size, allocate_message, serialize_ros_to_cdr}
use rmw_gurumdds.Message.Convert.Size.{message_size, sizes_agree, serialize_full}
use rmw_gurumdds.Message.Convert.Roundtrip.{Delivered, delivered}

abbrev pub scalar : Shape
scalar = record { is_array = false; array_size = 0; is_upper_bound = false }

abbrev sequence : Shape
sequence = record { is_array = true; array_size = 0; is_upper_bound = false }

abbrev pair : Shape
pair = record { is_array = true; array_size = 2; is_upper_bound = false }

-- A resize_function that takes at most 100 elements.
abbrev pub at_most_100 : Shape → ℕ → Bool
at_most_100 sh n = if n == 101 then false else true

abbrev pub flag_type : Members
flag_type = members (member boolean scalar no_members) no_members

abbrev pub sample_type : Members
sample_type = members (member uint16 scalar no_members) (
    members (member string scalar no_members) (
      members (member int32 sequence no_members)
        (members (member message pair flag_type) no_members)))

abbrev pub sample_flag : Bool → Elem
sample_flag v = struct (fields (cons (flag v) nil) no_fields)

abbrev pub sample : Fields
sample = fields (cons (word 513) nil) (
    fields (cons (text (104 ∷ 105 ∷ [])) nil) (
      fields (cons (word 1) (cons (word 70000) nil))
        (fields (cons (sample_flag true) (cons (sample_flag false) nil)) no_fields)))

abbrev pub empty_memory : Mem
empty_memory x = 0

pub sample-HasType : HasType big little at_most_100 sample_type sample
unfolding HasType count
sample-HasType = (
  tt,
  (omega arith, refl),
  (omega arith, tt),
  (
    tt,
    (omega arith, refl),
    (omega arith, tt),
    (
      tt,
      (omega arith, refl),
      (omega arith, (omega arith, tt)),
      (
        tt,
        (omega arith, refl),
        ((tt, (omega arith, refl), (tt, tt), tt), ((tt, (omega arith, refl), (tt, tt), tt), tt)),
        tt,
      ),
    ),
  ),
)

-- 2 bytes for 513; from 4 on, 4 and 3 bytes for the text; from 12 on, 4 and 8 bytes for the
-- sequence; 2 bytes for the flags; padding up to 28, and the header.
pub sample_size : message_size sample_type sample ≡ 32
unfolding members_end count align_up
sample_size = refl

delivered_example : Delivered big little at_most_100 sample_type sample empty_memory 100 40
delivered_example =
    delivered big little at_most_100 sample_type sample sample-HasType empty_memory 100 40
      (omega (arith, sample_size)) (omega arith)

-- An allocator that has blocks at address 1000 only.
abbrev pub block_at_1000 : ℕ → Option ℕ
block_at_1000 size = some 1000

sizes_agree_example :
    (get_serialized_size big empty_memory (some sample_type) (some sample)
      ≡ ok (some (message_size sample_type sample)))
    × (allocate_message block_at_1000 big empty_memory (some sample_type) (some sample) true
        ≡ ok (some 1000, some (message_size sample_type sample)))
sizes_agree_example =
    sizes_agree big little at_most_100 sample_type sample sample-HasType block_at_1000 empty_memory
      (omega (arith, sample_size))

serialize_full_example :
    serialize_ros_to_cdr big empty_memory (some sample_type) sample (some 100) 31 ≡ ok none
serialize_full_example =
    serialize_full big little at_most_100 sample_type sample sample-HasType empty_memory 100 31
      (omega (arith, sample_size)) (omega arith)

members-Codec_example :
    Codec
      (λ s b. serialize_members big s sample_type sample b)
      (members_end sample_type sample)
      (deserialize little true at_most_100 sample_type)
      sample
members-Codec_example = members-Codec big little at_most_100 sample_type sample sample-HasType

copy_arr-Codec_example :
    Codec
      (λ s b. copy_arr_to big s w32 (70000 ∷ 5 ∷ []) b)
      (copied_end w32 (70000 ∷ 5 ∷ []))
      (copy_arr_from little true w32 2)
      (70000 ∷ 5 ∷ [])
copy_arr-Codec_example =
    copy_arr-Codec big little w32 tt (70000 ∷ 5 ∷ []) (omega arith, (omega arith, tt)) (omega arith)

string-Codec_example :
    Codec
      (λ s b. write_string big s (104 ∷ 105 ∷ []) b)
      (string_end (104 ∷ 105 ∷ []))
      (read_string little true)
      (104 ∷ 105 ∷ [])
string-Codec_example = string-Codec big little (104 ∷ 105 ∷ []) (omega arith)

u16string-Codec_example :
    Codec
      (λ s b. write_u16string big s (44032 ∷ 72 ∷ []) b)
      (u16string_end (44032 ∷ 72 ∷ []))
      (read_u16string little true)
      (44032 ∷ 72 ∷ [])
u16string-Codec_example =
    u16string-Codec big little (44032 ∷ 72 ∷ []) (omega arith, (omega arith, tt)) (omega arith)

word-Codec_example :
    Codec
      (λ s b. write_word big s w64 123456789012 b)
      (word_end w64)
      (read_word little true w64)
      123456789012
word-Codec_example = word-Codec big little w64 123456789012 (omega arith)

swap_element-w64_example :
    swap_element w64 (word_value little (word_bytes big 8 (5 * 2 ^ 32 + 7)))
    ≡ (5 * 2 ^ 32 + 7) / 2 ^ 32
swap_element-w64_example = swap_element-w64 big little (5 * 2 ^ 32 + 7) refl (omega arith)
