-- ===== src/Service/Room.antt =====
-- The memory that is allocated for requests and responses of the basic mapping.
use rmw_gurumdds.Base.{
  ℕ, ◌+◌, ◌^◌, ◌≤◌, ◌<◌, ◌≡◌, ◌∙◌, Bool, true, false, List, Option, none, some, ok, ◌>>=◌,
  >>=-assoc, >>=-err, sym, ap, arith,
}
use rmw_gurumdds.Cdr.Memory.{Mem, Endian}
use rmw_gurumdds.Cdr.Words.{w32, differs}
use rmw_gurumdds.Cdr.Buffer.{align_up, roundup}
use rmw_gurumdds.Cdr.Codec.Bind.{bind-Codec}
use rmw_gurumdds.Message.Types.{Shape, Members, Fields}
use rmw_gurumdds.Message.Deserialize.{deserialize}
use rmw_gurumdds.Message.Typing.{HasType, members_end}
use rmw_gurumdds.Message.Spacing.{Spaced-align_up, Spaced-members_end}
use rmw_gurumdds.Message.Convert.{catch_runtime_error}
use rmw_gurumdds.Message.Convert.Size.{
  message_size, header_buffer, serialization_buffer_ok, message-Codec, sizes_agree,
}
use rmw_gurumdds.Service.{ServiceMembers}
use rmw_gurumdds.Service.Serialize.{
  allocate_request_basic, allocate_response_basic, write_header, serialize_service_basic,
  serialize_request_basic, serialize_response_basic,
}
use rmw_gurumdds.Service.Layout.{IsGuid, header_end, header-Codec}
use rmw_gurumdds.Service.Roundtrip.{service_size}

-- The header takes at least 8 bytes.
header_end_bound : (is_request : Bool) → 0 + 8 ≤ header_end is_request 0
unfolding align_up
header_end_bound true = omega arith
header_end_bound false = omega arith

-- So a request or response is larger than its message by at least 8 bytes.
service_size_bound :
    (is_request : Bool) (ms : Members) (fs : Fields)
    → message_size ms fs + 8 ≤ service_size is_request ms fs
service_size_bound is_request ms fs =
    let header = header_end is_request 0 in
    let inner : members_end ms fs 0 + 8 ≤ members_end ms fs header =
      Spaced-members_end ms fs 0 header (header_end_bound is_request) in
    omega (arith, Spaced-align_up w32 (members_end ms fs 0) (members_end ms fs header) inner)

module _ (sys : Endian) (accepts : Shape → ℕ → Bool) (ms : Members) (fs : Fields)
    (typed : HasType sys sys accepts ms fs) (n : ℕ) (guid : List ℕ) (n_fits : n < 2 ^ 64)
    (guid_ok : IsGuid guid) (mem : Mem) (p : ℕ) where
  -- A request or response does not fit a buffer of the size of its message.
  too_small :
      (is_request : Bool)
      → message_size ms fs < 2 ^ 63
      → serialize_service_basic sys mem (some ms) fs (some p) (message_size ms fs) n guid is_request
        ≡ ok none
  unfolding serialize_service_basic catch_runtime_error
  too_small is_request small =
      let size = message_size ms fs in
      let b = header_buffer sys mem p size in
      let codec =
        bind-Codec
          (λ h d. deserialize sys (differs sys sys) accepts ms d >>= λ q.
            roundup 4 q.1 >>= λ d'. ok (tt {0}, d'))
          (header-Codec sys sys is_request n guid n_fits guid_ok)
          (message-Codec sys sys accepts ms fs typed) in
      rw (serialization_buffer_ok sys mem p size (omega arith)) (
        ap catch_runtime_error (
          sym (>>=-assoc (write_header sys true n guid is_request b) _ _)
          ∙ >>=-err _ (
              codec.full b (omega arith) (omega arith)
                (omega (arith, service_size_bound is_request ms fs)))))

  -- The request is given the size of the message alone, and is then refused.
  pub request_too_small :
      (malloc : ℕ → Option ℕ) (s : ServiceMembers)
      → message_size ms fs < 2 ^ 63
      → s.request_members ≡ some ms
      → (allocate_request_basic malloc sys mem (some s) (some fs) true
          ≡ ok (malloc (message_size ms fs), some (message_size ms fs)))
        × (serialize_request_basic sys mem (some s) fs (some p) (message_size ms fs) n guid
            ≡ ok none)
  unfolding allocate_request_basic serialize_request_basic
  request_too_small malloc s small e =
      let size = (sizes_agree sys sys accepts ms fs typed malloc mem small).1 in
      (rw e size, rw e (too_small true small))

  pub response_too_small :
      (malloc : ℕ → Option ℕ) (s : ServiceMembers)
      → message_size ms fs < 2 ^ 63
      → s.response_members ≡ some ms
      → (allocate_response_basic malloc sys mem (some s) (some fs) true
          ≡ ok (malloc (message_size ms fs), some (message_size ms fs)))
        × (serialize_response_basic sys mem (some s) fs (some p) (message_size ms fs) n guid
            ≡ ok none)
  unfolding allocate_response_basic serialize_response_basic
  response_too_small malloc s small e =
      let size = (sizes_agree sys sys accepts ms fs typed malloc mem small).1 in
      (rw e size, rw e (too_small false small))
