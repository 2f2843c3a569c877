-- ===== src/Service/Enhanced.antt =====
-- Requests and responses of the enhanced mapping are plain messages.
use rmw_gurumdds.Base.{
  ℕ, ◌+◌, ◌≤◌, ◌<◌, ◌^◌, ◌≡◌, refl, ◌∙◌, Bool, Option, none, some, ok, arith, ap,
}
use native.Mathlib.Decide.{dec_le}
use rmw_gurumdds.Cdr.Memory.{Mem, Endian}
use rmw_gurumdds.Message.Types.{Shape, Members, Fields}
use rmw_gurumdds.Message.Typing.{HasType}
use rmw_gurumdds.Message.Convert.{serialize_ros_to_cdr, deserialize_cdr_to_ros}
use rmw_gurumdds.Message.Convert.Size.{message_size, serialize_full}
use rmw_gurumdds.Message.Convert.Roundtrip.{delivered}
use rmw_gurumdds.Service.Serialize.{serialize_service_enhanced}
use rmw_gurumdds.Service.Deserialize.{deserialize_service_enhanced}

-- For every message type, value, memory and buffer, serialize_service_enhanced returns and writes
-- what serialize_ros_to_cdr does, and deserialize_service_enhanced returns what
-- deserialize_cdr_to_ros does.
pub enhanced_is_plain :
    (sys : Endian) (accepts : Shape → ℕ → Bool) (mem : Mem) (ms : Option Members) (fs : Fields)
    (buffer : Option ℕ) (p size : ℕ)
    → (serialize_service_enhanced sys mem ms fs buffer size
        ≡ serialize_ros_to_cdr sys mem ms fs buffer size)
      × (deserialize_service_enhanced sys accepts mem ms p size
          ≡ deserialize_cdr_to_ros sys accepts ms mem p size)
unfolding serialize_service_enhanced serialize_ros_to_cdr deserialize_service_enhanced
    deserialize_cdr_to_ros
enhanced_is_plain sys accepts mem none fs buffer p size = (refl, refl)
enhanced_is_plain sys accepts mem (some ms) fs buffer p size = (refl, refl)

-- The `size` bytes at `address` are a copy of a buffer in which the system `from` wrote the message.
pub record Copy (from : Endian) (ms : Members) (fs : Fields) (mem : Mem) (address size : ℕ)
    : Type 0 where
  pub before : Mem
  pub buffer : ℕ
  pub after : Mem
  pub wrote :
      serialize_service_enhanced from before (some ms) fs (some buffer) size ≡ ok (some after)
  pub same : (x : ℕ) → x < size → mem (address + x) ≡ after (buffer + x)

module _ (from to : Endian) (accepts : Shape → ℕ → Bool) (ms : Members) (fs : Fields)
    (typed : HasType from to accepts ms fs) (mem : Mem) (address size : ℕ)
    (small : size < 2 ^ 32) where
  -- A buffer in which a message was written has room for it.
  has_room : Copy from ms fs mem address size → message_size ms fs ≤ size
  has_room c = elim (dec_le (message_size ms fs) size) [
    | yes room ↦ room
    | no not_room ↦
        let full =
          serialize_full from to accepts ms fs typed c.before c.buffer size (omega arith)
            (omega arith) in
        let plain =
          (enhanced_is_plain from accepts c.before (some ms) fs (some c.buffer) 0 size).0 in
        absurd (cc)
  ]

  pub Copy-delivers :
      Copy from ms fs mem address size
      → deserialize_service_enhanced to accepts mem (some ms) address size ≡ ok (some fs)
  Copy-delivers c =
      let d =
        delivered from to accepts ms fs typed c.before c.buffer size (has_room c) (omega arith) in
      let plain = (enhanced_is_plain from accepts c.before (some ms) fs (some c.buffer) 0 size).0 in
      let same : c.after ≡ d.out = (let r = d.returns in cc) in
      (enhanced_is_plain to accepts mem (some ms) fs none address size).1
      ∙ d.delivers mem address (λ x h. c.same x h ∙ ap (λ (m : Mem). m (c.buffer + x)) same)
