-- ===== src/Service/Roundtrip.antt =====
-- A request or response of the basic mapping, written on one system and read on another.
use rmw_gurumdds.Base.{
  ℕ, ◌+◌, ◌-◌, ◌^◌, ◌≤◌, ◌<◌, ◌≡◌, refl, ◌∙◌, sym, ◌⊎◌, inl, inr, ap, err, true, Bool, List, some,
  Result, ok, ◌>>=◌, >>=-ok, >>=-after, >>=-assoc, arith, le→ltb,
}
use native.Mathlib.Nat.{add_assoc}
use rmw_gurumdds.Cdr.Memory.{Mem, Endian, store_below, store_above}
use rmw_gurumdds.Cdr.Words.{w32, differs}
use rmw_gurumdds.Cdr.Buffer.{
  CdrBuffer, size_mod, header_size, endian_code, align_up, deserialization_buffer,
}
use rmw_gurumdds.Cdr.Codec.{Codec, Written}
use rmw_gurumdds.Cdr.Codec.Bind.{bind-Codec}
use rmw_gurumdds.Cdr.Codec.Align.{reader-Codec}
use rmw_gurumdds.Cdr.Codec.Steps.{align_up_bounds, roundup_ok}
use rmw_gurumdds.Message.Types.{Shape, Members, Fields}
use rmw_gurumdds.Message.Serialize.{serialize_message, serialize_members}
use rmw_gurumdds.Message.Deserialize.{deserialize}
use rmw_gurumdds.Message.Typing.{HasType, members_end}
use rmw_gurumdds.Message.Roundtrip.Members.{members-Codec}
use rmw_gurumdds.Message.Convert.{catch_runtime_error}
use rmw_gurumdds.Message.Convert.Size.{header_buffer, serialization_buffer_ok}
use rmw_gurumdds.Message.Convert.Roundtrip.{header_endian, swap_differs}
use rmw_gurumdds.Service.Serialize.{write_header, serialize_service_basic}
use rmw_gurumdds.Service.Deserialize.{Header, read_header, deserialize_service_basic}
use rmw_gurumdds.Service.Layout.{header_end, header_of, IsGuid, header-Codec}

-- The size of a request or response: the CDR header, the service header, the message, and padding.
abbrev pub service_size : Bool → Members → Fields → ℕ
service_size is_request ms fs = align_up w32 (members_end ms fs (header_end is_request 0)) + 4

-- What `serialize_service_basic` leaves in memory: it returns true, has written nothing outside
-- the buffer, and from every copy of the buffer the header and the message are read back.
pub record ServiceDelivered (from to : Endian) (accepts : Shape → ℕ → Bool) (ms : Members)
    (fs : Fields) (is_request : Bool) (n : ℕ) (guid : List ℕ) (mem : Mem) (p size : ℕ)
    : Type 0 where
  pub out : Mem
  pub returns :
      serialize_service_basic from mem (some ms) fs (some p) size n guid is_request ≡ ok (some out)
  pub inside : (x : ℕ) → (x < p) ⊎ (p + size ≤ x) → out x ≡ mem x
  pub delivers :
      (mem' : Mem) (p' : ℕ)
      → ((x : ℕ) → x < size → mem' (p' + x) ≡ out (p + x))
      → deserialize_service_basic to accepts mem' (some ms) p' size is_request
        ≡ ok (some (header_of from to n guid, fs))

-- Two reads, without the buffer that they end with.
two_reads :
    {A B : Type 0} (m : Result (A × CdrBuffer)) (f : CdrBuffer → Result (B × CdrBuffer)) {a : A}
    {b : B} {d : CdrBuffer}
    → (m >>= λ q. ◌>>=◌ {B = (A × B) × CdrBuffer} (f q.1) (λ r. ok ((q.0, r.0), r.1)))
      ≡ ok ((a, b), d)
    → (m >>= λ q. ◌>>=◌ {B = A × B} (f q.1) (λ r. ok (q.0, r.0))) ≡ ok (a, b)
two_reads (ok q) f e = >>=-after (f q.1) _ (λ x. ok x.0) e
two_reads (err x) f e = ap (λ z. z >>= λ y. ok y.0) e

module _ (from to : Endian) (accepts : Shape → ℕ → Bool) (ms : Members) (fs : Fields)
    (typed : HasType from to accepts ms fs) (is_request : Bool) (n : ℕ) (guid : List ℕ)
    (n_fits : n < 2 ^ 64) (guid_ok : IsGuid guid) where
  write_body : Bool → CdrBuffer → Result CdrBuffer
  write_body s b = write_header from s n guid is_request b >>= serialize_members from s ms fs

  read_body : CdrBuffer → Result ((Header × Fields) × CdrBuffer)
  read_body d = do
    (h, d) ← read_header to (differs from to) is_request d
    (gs, d) ← deserialize to (differs from to) accepts ms d
    ok ((h, gs), d)

  body : Header × Fields
  body = (header_of from to n guid, fs)

  body-Codec : Codec write_body (λ o. members_end ms fs (header_end is_request o)) read_body body
  unfolding write_body read_body body
  body-Codec =
      bind-Codec (λ h d. deserialize to (differs from to) accepts ms d >>= λ r. ok ((h, r.0), r.1))
        (header-Codec from to is_request n guid n_fits guid_ok)
        (reader-Codec (members-Codec from to accepts ms fs typed) λ d d' e. >>=-ok _ e)

  module _ (mem : Mem) (p size : ℕ) (room : service_size is_request ms fs ≤ size)
      (lim : size < size_mod) where
    start : CdrBuffer
    start = header_buffer from mem p size

    end : ℕ
    end = members_end ms fs (header_end is_request 0)

    grows : end ≤ align_up w32 end
    grows = (align_up_bounds w32 end).0

    written : Written write_body read_body body start end
    unfolding start end
    written = body-Codec.fits start (omega arith) (omega (arith, grows))

    message_returns :
        (write_header from true n guid is_request start >>= λ b.
        serialize_message from true ms fs true b)
        ≡ ok (record start { mem = written.out; offset = align_up w32 end })
    unfolding serialize_message start end write_body
    message_returns =
        sym (>>=-assoc (write_header from true n guid is_request start) _ _)
        ∙ >>=-ok _ written.returns
        ∙ roundup_ok w32 (record start { mem = written.out; offset = end }) (omega arith)
            (omega arith)

    -- The reader's side, on a copy of the buffer.
    delivers :
        (mem' : Mem) (p' : ℕ)
        → ((x : ℕ) → x < size → mem' (p' + x) ≡ written.out (p + x))
        → deserialize_service_basic to accepts mem' (some ms) p' size is_request
          ≡ ok (some (header_of from to n guid, fs))
    unfolding deserialize_service_basic deserialization_buffer start end catch_runtime_error
        read_body body
    delivers mem' p' same =
        let code : mem' (p' + 1) ≡ endian_code from =
          same 1 (omega arith)
          ∙ written.frame (p + 1) (inl (omega arith))
          ∙ header_endian mem p from in
        let d : CdrBuffer = record {
          mem = mem';
          buf = p' + header_size;
          offset = 0;
          size = size - header_size;
        } in
        let read =
          written.reads d refl (omega (arith, grows)) (omega arith) (λ x lo hi.
            rw (add_assoc, add_assoc) (same (header_size + x) (omega (arith, grows)))) in
        rw (le→ltb size header_size (omega arith), code, swap_differs from to)
          (ap catch_runtime_error (
            two_reads (read_header to (differs from to) is_request d)
              (deserialize to (differs from to) accepts ms) read))

    -- For a value of a C++ message type, a sequence number of 64 bits, a guid of 16 bytes and a
    -- buffer below 2 ^ 64 bytes with room for the header and the message,
    -- serialize_service_basic returns true and writes nothing outside the buffer, and
    -- deserialize_service_basic on the other system, at any copy of the buffer, returns true with
    -- the same message, the two halves of the number that were written, and the guid, whose two
    -- 64-bit words the other system has in its own byte order.
    pub service_delivered : ServiceDelivered from to accepts ms fs is_request n guid mem p size
    unfolding start end catch_runtime_error
    service_delivered = record {
      out = written.out;
      returns =
          unfold serialize_service_basic catch_runtime_error in
          rw (serialization_buffer_ok from mem p size (omega arith)) (
            ap catch_runtime_error
              (>>=-after (write_header from true n guid is_request start) _ _ message_returns));
      inside = λ x outside. elim outside [
        | inl below ↦ written.frame x (inl (omega arith)) ∙ store_below mem p _ x below
        | inr above ↦
            written.frame x (inr (omega (arith, grows))) ∙ store_above mem p _ x (omega arith)
      ];
      delivers = delivers;
    }
