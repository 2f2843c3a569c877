-- ===== src/Message/Convert.antt =====
-- The entry points of rmw_gurumdds_cpp/src/type_support_common.cpp and
-- rmw_gurumdds_cpp/include/rmw_gurumdds_cpp/type_support_common.inl, for the C++ type support.
-- A pointer that may be null is an option.
pub mod Size
pub mod Roundtrip
use rmw_gurumdds.Base.{
  ℕ, ◌+◌, ◌%◌, Bool, true, false, if◌then◌else◌, Option, none, some, Result, ok, err, Error,
  buf_is_null, insufficient_buffer_size, out_of_buffer, not_null_terminated, unreachable_type,
  ill_typed, resize_refused, ◌>>=◌,
}
use rmw_gurumdds.Cdr.Memory.{Mem, Endian}
use rmw_gurumdds.Cdr.Buffer.{
  CdrBuffer, size_mod, header_size, get_offset, serialization_buffer, counting_buffer,
  deserialization_buffer,
}
use rmw_gurumdds.Message.Types.{Shape, Members, Fields}
use rmw_gurumdds.Message.Serialize.{serialize_message}
use rmw_gurumdds.Message.Deserialize.{deserialize}

-- The exceptions that `catch (std::runtime_error & e)` takes.
abbrev pub is_runtime_error : Error → Bool
is_runtime_error buf_is_null = true
is_runtime_error insufficient_buffer_size = true
is_runtime_error out_of_buffer = true
is_runtime_error not_null_terminated = true
is_runtime_error unreachable_type = false
is_runtime_error ill_typed = false
is_runtime_error resize_refused = false

-- `none` is the return value `false`; what is not caught goes on to the caller.
unfoldable pub catch_runtime_error {ℓ} : {A : Type ℓ} → Result A → Result (Option A)
catch_runtime_error (ok a) = ok (some a)
catch_runtime_error (err e) = if is_runtime_error e then ok none else err e

-- `get_serialized_size`; `none` is -1.
unfoldable pub get_serialized_size :
    Endian → Mem → Option Members → Option Fields → Result (Option ℕ)
get_serialized_size sys mem none fs = ok none
get_serialized_size sys mem (some ms) none = ok none
get_serialized_size sys mem (some ms) (some fs) = do
  b ← serialize_message sys false ms fs true (counting_buffer mem)
  ok (some ((get_offset b + 4) % size_mod))

-- `serialize_ros_to_cdr`, with the memory as it leaves it.
unfoldable pub serialize_ros_to_cdr :
    Endian → Mem → Option Members → Fields → Option ℕ → ℕ → Result (Option Mem)
unfolding catch_runtime_error
serialize_ros_to_cdr sys mem none fs dds_message size = ok none
serialize_ros_to_cdr sys mem (some ms) fs dds_message size = catch_runtime_error (do
  b ← serialization_buffer sys mem dds_message size
  b ← serialize_message sys true ms fs true b
  ok b.mem)

-- `deserialize_cdr_to_ros`, with the message that it fills in.
unfoldable pub deserialize_cdr_to_ros :
    Endian → (Shape → ℕ → Bool) → Option Members → Mem → ℕ → ℕ → Result (Option Fields)
unfolding catch_runtime_error
deserialize_cdr_to_ros sys accepts none mem dds_message size = ok none
deserialize_cdr_to_ros sys accepts (some ms) mem dds_message size = catch_runtime_error (do
  (swap, d) ← deserialization_buffer sys mem dds_message size
  (fs, d) ← deserialize sys swap accepts ms d
  ok fs)

-- `allocate_message`: the pointer it returns and what it writes to `*size`. `malloc` is a parameter:
-- it gives a block of a size, or none.
unfoldable pub allocate_message :
    (ℕ → Option ℕ)
    → Endian
    → Mem
    → Option Members
    → Option Fields
    → Bool
    → Result (Option ℕ × Option ℕ)
allocate_message malloc sys mem none fs size_given = ok (none, none)
allocate_message malloc sys mem (some ms) none size_given = ok (none, none)
allocate_message malloc sys mem (some ms) (some fs) false = ok (none, none)
allocate_message malloc sys mem (some ms) (some fs) true = do
  b ← serialize_message sys false ms fs true (counting_buffer mem)
  let size = (get_offset b + 4) % size_mod
  ok (malloc size, some size)
