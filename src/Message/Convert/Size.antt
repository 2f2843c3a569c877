-- ===== src/Message/Convert/Size.antt =====
-- The size of a message, which is computed beforehand.
use rmw_gurumdds.Base.{
  ℕ, ◌+◌, ◌-◌, ◌^◌, ◌≤◌, ◌<◌, ◌≡◌, refl, ◌∙◌, ap, true, [], ◌∷◌, insufficient_buffer_size, Option,
  none, some, Result, ok, err, ◌>>=◌, >>=-ok, arith, le→ltb, lt→ltb, Bool,
}
use native.Mathlib.Decide.{dec_le}
use rmw_gurumdds.Cdr.Memory.{Mem, Endian, store}
use rmw_gurumdds.Cdr.Words.{w32, differs}
use rmw_gurumdds.Cdr.Buffer.{
  CdrBuffer, header_size, get_offset, roundup, align_up, serialization_buffer, counting_buffer,
  endian_code,
}
use rmw_gurumdds.Cdr.Codec.{Codec}
use rmw_gurumdds.Cdr.Codec.Steps.{roundup-Codec}
use rmw_gurumdds.Cdr.Codec.Bind.{bind-Codec}
use rmw_gurumdds.Message.Types.{Shape, Members, Fields}
use rmw_gurumdds.Message.Serialize.{serialize_message}
use rmw_gurumdds.Message.Deserialize.{deserialize}
use rmw_gurumdds.Message.Typing.{HasType, members_end}
use rmw_gurumdds.Message.Roundtrip.Members.{members-Codec}
use rmw_gurumdds.Message.Convert.{
  get_serialized_size, allocate_message, serialize_ros_to_cdr, catch_runtime_error,
}

-- The size of a serialized message: the header, the members, and padding up to a multiple of 4.
abbrev pub message_size : Members → Fields → ℕ
message_size ms fs = align_up w32 (members_end ms fs 0) + 4

-- The buffer behind a header that has been written at `p`.
abbrev pub header_buffer : Endian → Mem → ℕ → ℕ → CdrBuffer
header_buffer sys mem p size = record {
  mem = store mem p (0 ∷ endian_code sys ∷ 0 ∷ 0 ∷ []);
  buf = p + header_size;
  offset = 0;
  size = size - header_size;
}

pub serialization_buffer_ok :
    (sys : Endian) (mem : Mem) (p size : ℕ)
    → header_size ≤ size
    → serialization_buffer sys mem (some p) size ≡ ok (header_buffer sys mem p size)
unfolding serialization_buffer
serialization_buffer_ok sys mem p size room = rw (le→ltb size header_size room) refl

serialization_buffer_err :
    (sys : Endian) (mem : Mem) (p size : ℕ)
    → size < header_size
    → serialization_buffer sys mem (some p) size ≡ err insufficient_buffer_size
unfolding serialization_buffer
serialization_buffer_err sys mem p size small = rw (lt→ltb size header_size small) refl

module _ (from to : Endian) (accepts : Shape → ℕ → Bool) (ms : Members) (fs : Fields)
    (typed : HasType from to accepts ms fs) where
  pub message-Codec :
      Codec
        (λ s b. serialize_message from s ms fs true b)
        (λ o. align_up w32 (members_end ms fs o))
        (λ d. deserialize to (differs from to) accepts ms d >>= λ p.
          roundup 4 p.1 >>= λ d'. ok (tt {0}, d'))
        tt
  unfolding serialize_message
  message-Codec =
      bind-Codec (λ x d. roundup 4 d >>= λ d'. ok (tt {0}, d'))
        (members-Codec from to accepts ms fs typed) (roundup-Codec w32)

  pub get_serialized_size-eq :
      (mem : Mem)
      → message_size ms fs < 2 ^ 63
      → get_serialized_size from mem (some ms) (some fs) ≡ ok (some (message_size ms fs))
  unfolding get_serialized_size get_offset counting_buffer
  get_serialized_size-eq mem small =
      >>=-ok _ (message-Codec.counts (counting_buffer mem) (omega arith) (omega arith))
      ∙ ap (λ (n : ℕ). ok (some n)) (omega arith)

  -- For a value of the message type whose message is below 2 ^ 63 bytes, get_serialized_size
  -- returns the size of the message, and allocate_message asks malloc for exactly that size and
  -- reports it.
  pub sizes_agree :
      (malloc : ℕ → Option ℕ) (mem : Mem)
      → message_size ms fs < 2 ^ 63
      → (get_serialized_size from mem (some ms) (some fs) ≡ ok (some (message_size ms fs)))
        × (allocate_message malloc from mem (some ms) (some fs) true
            ≡ ok (malloc (message_size ms fs), some (message_size ms fs)))
  unfolding allocate_message get_offset counting_buffer
  sizes_agree malloc mem small = (
    get_serialized_size-eq mem small,
    >>=-ok _ (message-Codec.counts (counting_buffer mem) (omega arith) (omega arith))
        ∙ ap (λ (n : ℕ). ok (malloc n, some n)) (omega arith),
  )

  -- The steps of `serialize_ros_to_cdr` where the header fits.
  pub serialize_steps :
      (mem : Mem) (p size : ℕ) {r : Result CdrBuffer}
      → header_size ≤ size
      → serialize_message from true ms fs true (header_buffer from mem p size) ≡ r
      → serialize_ros_to_cdr from mem (some ms) fs (some p) size
        ≡ catch_runtime_error (r >>= λ b. ok b.mem)
  unfolding serialize_ros_to_cdr
  serialize_steps mem p size room e = rw (serialization_buffer_ok from mem p size room, e)

  -- For a value of the message type, a buffer smaller than the message and below 2 ^ 63 bytes
  -- makes serialize_ros_to_cdr return false.
  pub serialize_full :
      (mem : Mem) (p size : ℕ)
      → size < message_size ms fs
      → size < 2 ^ 63
      → serialize_ros_to_cdr from mem (some ms) fs (some p) size ≡ ok none
  serialize_full mem p size small lim = elim (dec_le header_size size) [
    | yes room ↦
        let b = header_buffer from mem p size in
        serialize_steps mem p size room
          (message-Codec.full b (omega arith) (omega arith) (omega arith))
        ∙ unfold catch_runtime_error in refl
    | no none_ ↦
        unfold serialize_ros_to_cdr in rw (serialization_buffer_err from mem p size (omega arith))
  ]
