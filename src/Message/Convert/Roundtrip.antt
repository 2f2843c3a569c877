-- ===== src/Message/Convert/Roundtrip.antt =====
-- Serializing and deserializing a message, on one system or from one system to another.
use rmw_gurumdds.Base.{
  ℕ, ◌+◌, ◌-◌, ◌≤◌, ◌<◌, ◌≡◌, refl, ◌∙◌, ◌⊎◌, inl, inr, true, false, Bool, if◌then◌else◌, ◌==◌, [],
  ◌∷◌, some, ok, >>=-ok, arith, le→ltb,
}
use native.Mathlib.Nat.{add_assoc}
use rmw_gurumdds.Cdr.Memory.{Mem, Endian, big, little, store, store_below, store_above}
use rmw_gurumdds.Cdr.Words.{w32, differs}
use rmw_gurumdds.Cdr.Buffer.{
  CdrBuffer, size_mod, header_size, endian_code, align_up, deserialization_buffer,
}
use rmw_gurumdds.Cdr.Codec.{Written}
use rmw_gurumdds.Cdr.Codec.Steps.{align_up_bounds, roundup_ok}
use rmw_gurumdds.Message.Types.{Shape, Members, Fields}
use rmw_gurumdds.Message.Serialize.{serialize_message, serialize_members}
use rmw_gurumdds.Message.Deserialize.{deserialize}
use rmw_gurumdds.Message.Typing.{HasType, members_end}
use rmw_gurumdds.Message.Roundtrip.Members.{members-Codec}
use rmw_gurumdds.Message.Convert.{serialize_ros_to_cdr, deserialize_cdr_to_ros, catch_runtime_error}
use rmw_gurumdds.Message.Convert.Size.{message_size, header_buffer, serialize_steps}

-- What `serialize_ros_to_cdr` leaves in memory: it returns true, has written nothing outside the
-- buffer, and from every copy of the buffer the message is read back.
pub record Delivered (from to : Endian) (accepts : Shape → ℕ → Bool) (ms : Members) (fs : Fields)
    (mem : Mem) (p size : ℕ) : Type 0 where
  pub out : Mem
  pub returns : serialize_ros_to_cdr from mem (some ms) fs (some p) size ≡ ok (some out)
  pub inside : (x : ℕ) → (x < p) ⊎ (p + size ≤ x) → out x ≡ mem x
  pub delivers :
      (mem' : Mem) (p' : ℕ)
      → ((x : ℕ) → x < size → mem' (p' + x) ≡ out (p + x))
      → deserialize_cdr_to_ros to accepts (some ms) mem' p' size ≡ ok (some fs)

pub header_endian :
    (mem : Mem) (p : ℕ) (sys : Endian)
    → store mem p (0 ∷ endian_code sys ∷ 0 ∷ 0 ∷ []) (p + 1) ≡ endian_code sys
unfolding store
header_endian mem p sys = ground arith

pub swap_differs :
    (from to : Endian)
    → (if endian_code from == endian_code to then false else true) ≡ differs from to
swap_differs big big = refl
swap_differs big little = refl
swap_differs little big = refl
swap_differs little little = refl

module _ (from to : Endian) (accepts : Shape → ℕ → Bool) (ms : Members) (fs : Fields)
    (typed : HasType from to accepts ms fs) (mem : Mem) (p size : ℕ)
    (room : message_size ms fs ≤ size) (lim : size < size_mod) where
  start : CdrBuffer
  start = header_buffer from mem p size

  grows : members_end ms fs 0 ≤ align_up w32 (members_end ms fs 0)
  grows = (align_up_bounds w32 (members_end ms fs 0)).0

  written :
      Written
        (λ s b. serialize_members from s ms fs b)
        (deserialize to (differs from to) accepts ms)
        fs
        start
        (members_end ms fs 0)
  unfolding start
  written =
      (members-Codec from to accepts ms fs typed).fits start (omega arith) (omega (arith, grows))

  message_returns :
      serialize_message from true ms fs true start
      ≡ ok (record start { mem = written.out; offset = align_up w32 (members_end ms fs 0) })
  unfolding serialize_message start
  message_returns =
      >>=-ok _ written.returns
      ∙ roundup_ok w32 (record start { mem = written.out; offset = members_end ms fs 0 })
          (omega arith) (omega arith)

  -- The reader's side, on a copy of the buffer.
  delivers :
      (mem' : Mem) (p' : ℕ)
      → ((x : ℕ) → x < size → mem' (p' + x) ≡ written.out (p + x))
      → deserialize_cdr_to_ros to accepts (some ms) mem' p' size ≡ ok (some fs)
  unfolding deserialize_cdr_to_ros deserialization_buffer start
  delivers mem' p' same =
      let code : mem' (p' + 1) ≡ endian_code from =
        same 1 (omega arith)
        ∙ written.frame (p + 1) (inl (omega arith))
        ∙ header_endian mem p from in
      let d : CdrBuffer = record {
        mem = mem';
        buf = p' + header_size;
        offset = 0;
        size = size - header_size;
      } in
      let read =
        written.reads d refl (omega (arith, grows)) (omega arith)
          (λ x lo hi. rw (add_assoc, add_assoc) (same (header_size + x) (omega (arith, grows)))) in
      rw (le→ltb size header_size (omega arith), code, swap_differs from to, read) refl

  -- For a value of a C++ message type and a buffer below 2 ^ 64 bytes that is at least as large as
  -- the message, serialize_ros_to_cdr on one system returns true and writes nothing outside the
  -- buffer, and deserialize_cdr_to_ros on the other system, at any copy of the buffer, returns
  -- true with the same value. Either system has either byte order; arrays of 64-bit words need
  -- equal byte orders, and resize_function accepts the sizes of the sequences.
  pub delivered : Delivered from to accepts ms fs mem p size
  unfolding start
  delivered = record {
    out = written.out;
    returns =
        serialize_steps from to accepts ms fs typed mem p size (omega arith) message_returns
        ∙ unfold catch_runtime_error in refl;
    inside = λ x outside. elim outside [
      | inl below ↦ written.frame x (inl (omega arith)) ∙ store_below mem p _ x below
      | inr above ↦
          written.frame x (inr (omega (arith, grows))) ∙ store_above mem p _ x (omega arith)
    ];
    delivers = delivers;
  }
