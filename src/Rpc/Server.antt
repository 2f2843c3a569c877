-- ===== src/Rpc/Server.antt =====
-- `rmw_take_request` and `rmw_send_response` (rmw_gurumdds_cpp/src/rmw_service.cpp).
use rmw_gurumdds.Base.{
  ℕ, Bool, true, false, not, if◌then◌else◌, List, [], ◌∷◌, Option, none, some, Result, ok, ◌>>=◌,
}
use rmw_gurumdds.Cdr.Memory.{Mem, Endian}
use rmw_gurumdds.Message.Types.{Shape, Fields}
use rmw_gurumdds.Event.Converter.{
  RmwRet, ret_ok, ret_error, ret_invalid_argument, ret_incorrect_rmw_implementation, DdsRet, dds_ok,
}
use rmw_gurumdds.Service.{ServiceMembers}
use rmw_gurumdds.Service.Numbers.{ros_sn_to_dds_sn}
use rmw_gurumdds.Service.Serialize.{allocate_response_basic, serialize_response_basic}
use rmw_gurumdds.Service.Deserialize.{deserialize_request_basic, deserialize_request_enhanced}
use rmw_gurumdds.Rpc.{
  Dds, Sent, raw, with_sampleinfoex, ServiceInfo, Handle, Sample, Take, sample, refused,
  RequestHeader,
}
use rmw_gurumdds.Rpc.Samples.{ros_guid_to_dds_guid, Read, read_basic, read_enhanced, header_for}

-- The code returned, `*taken` if it is written, `*request_header` and `*ros_request` if they are
-- written, and what the reader still has.
pub record RequestOutcome : Type 0 where
  pub ret : RmwRet
  pub taken : Option Bool
  pub header : Option RequestHeader
  pub message : Option Fields
  pub rest : List Take

abbrev pub request_stops : RmwRet → Option Bool → List Take → RequestOutcome
request_stops r t q = record { ret = r; taken = t; header = none; message = none; rest = q }

-- What follows the call of `deserialize_request_basic` or `deserialize_request_enhanced`.
unfoldable pub request_read : Sample → Option Read → List Take → RequestOutcome
request_read s none q = request_stops ret_error (some false) q
request_read s (some r) q = record {
  ret = ret_ok;
  taken = some true;
  header = some (header_for s r);
  message = some r.message;
  rest = q;
}

-- The two branches, which differ in `read`: one sample is taken, and only a valid one is read.
unfoldable pub take_one : (Sample → ℕ → Result (Option Read)) → List Take → Result RequestOutcome
unfolding request_read
take_one read [] = ok (request_stops ret_ok (some false) [])
take_one read (refused ∷ q) = ok (request_stops ret_error (some false) q)
take_one read (sample s ∷ q) =
    if s.valid_data
    then elim s.data_ [
      | none ↦ ok (request_stops ret_error (some false) q)
      | some p ↦ do r ← read s p; ok (request_read s r q)
    ]
    else ok (request_stops ret_ok (some true) q)

module _ (sys : Endian) (accepts : Shape → ℕ → Bool) (mem : Mem) where
  unfoldable pub request_basic : Option ServiceMembers → Sample → ℕ → Result (Option Read)
  request_basic s x p = do
    res ← deserialize_request_basic sys accepts mem s p x.size
    ok (read_basic res)

  unfoldable pub request_enhanced : Option ServiceMembers → Sample → ℕ → Result (Option Read)
  request_enhanced s x p = do
    res ← deserialize_request_enhanced sys accepts mem s p x.size
    ok (read_enhanced x res)

  -- What `rmw_take_request` does once the arguments are checked. The three sequences that it
  -- creates are there if `sequences` is true.
  unfoldable pub take_request_checked : Bool → ServiceInfo → List Take → Result RequestOutcome
  unfolding take_one request_basic request_enhanced
  take_request_checked sequences info q =
      if not info.has_request_reader
      then ok (request_stops ret_error (some false) q)
      else elim info.service_typesupport [
        | none ↦ ok (request_stops ret_error (some false) q)
        | some s ↦
            if not sequences
            then ok (request_stops ret_error (some false) q)
            else if info.service_mapping_basic
            then take_one (request_basic s) q
            else take_one (request_enhanced s) q
      ]

  -- `given` tells for each of `request_header`, `ros_request` and `taken` whether it is not null.
  unfoldable pub rmw_take_request :
      Bool → Option (Handle ServiceInfo) → Bool × Bool × Bool → List Take → Result RequestOutcome
  unfolding take_request_checked
  rmw_take_request sequences none given q = ok (request_stops ret_invalid_argument none q)
  rmw_take_request sequences (some s) (header, message, taken) q =
      if not s.identifier_matches
      then ok (request_stops ret_incorrect_rmw_implementation none q)
      else if not header
      then ok (request_stops ret_invalid_argument none q)
      else if not message
      then ok (request_stops ret_invalid_argument none q)
      else if not taken
      then ok (request_stops ret_invalid_argument none q)
      else elim s.data_ [
        | none ↦ ok (request_stops ret_error (some false) q)
        | some info ↦ take_request_checked sequences info q
      ]

-- `rmw_request_id_t`
pub record RequestId : Type 0 where
  pub sequence_number : ℕ
  pub writer_guid : List ℕ

-- The code returned, and what was handed to DDS.
pub record ResponseOutcome : Type 0 where
  pub ret : RmwRet
  pub sent : Option Sent

abbrev pub response_stops : RmwRet → ResponseOutcome
response_stops r = record { ret = r; sent = none }

unfoldable pub after_response : DdsRet → Sent → ResponseOutcome
after_response dds_ok s = record { ret = ret_ok; sent = some s }
after_response _ s = record { ret = ret_error; sent = some s }

module _ (dds : Dds) (sys : Endian) (mem : Mem) where
  -- What follows the call of `serialize_response_basic`.
  unfoldable pub write_response : ℕ → ℕ → Option Mem → ResponseOutcome
  unfolding after_response
  write_response dds_response size none = response_stops ret_error
  write_response dds_response size (some out) =
      after_response (dds.raw_write out dds_response size) (raw out dds_response size)

  -- What follows the call of `allocate_response_basic`; `size` was 0 before it.
  unfoldable pub fill_response :
      Option ServiceMembers → RequestId → Fields → Option ℕ × Option ℕ → Result ResponseOutcome
  unfolding write_response
  fill_response s id ros_response (none, size) = ok (response_stops ret_error)
  fill_response s id ros_response (some dds_response, none) = do
    res ←
        serialize_response_basic sys mem s ros_response (some dds_response) 0 id.sequence_number
          id.writer_guid
    ok (write_response dds_response 0 res)
  fill_response s id ros_response (some dds_response, some size) = do
    res ←
        serialize_response_basic sys mem s ros_response (some dds_response) size id.sequence_number
          id.writer_guid
    ok (write_response dds_response size res)

  -- The branch for `service_mapping_basic`.
  unfoldable pub respond_basic : Option ServiceMembers → RequestId → Fields → Result ResponseOutcome
  unfolding fill_response
  respond_basic s id ros_response = do
    allocated ← allocate_response_basic dds.malloc sys mem s (some ros_response) true
    fill_response s id ros_response allocated

  -- The other branch.
  unfoldable pub respond_enhanced : RequestId → Fields → ResponseOutcome
  unfolding after_response
  respond_enhanced id ros_response =
      let seq = ros_sn_to_dds_sn id.sequence_number in
      let src_guid = ros_guid_to_dds_guid id.writer_guid in
      after_response (dds.write_w_sampleinfoex ros_response seq src_guid)
        (with_sampleinfoex ros_response seq src_guid)

  -- The checks of the writer and of the type support.
  unfoldable pub respond_checked : ServiceInfo → RequestId → Fields → Result ResponseOutcome
  unfolding respond_basic respond_enhanced
  respond_checked info id ros_response =
      if not info.has_response_writer
      then ok (response_stops ret_error)
      else elim info.service_typesupport [
        | none ↦ ok (response_stops ret_error)
        | some s ↦
            if info.service_mapping_basic
            then respond_basic s id ros_response
            else ok (respond_enhanced id ros_response)
      ]

  unfoldable pub rmw_send_response :
      Option (Handle ServiceInfo) → Option RequestId → Option Fields → Result ResponseOutcome
  unfolding respond_checked
  rmw_send_response none request_header ros_response = ok (response_stops ret_invalid_argument)
  rmw_send_response (some s) request_header ros_response =
      if not s.identifier_matches
      then ok (response_stops ret_incorrect_rmw_implementation)
      else elim request_header [
        | none ↦ ok (response_stops ret_invalid_argument)
        | some id ↦ elim ros_response [
          | none ↦ ok (response_stops ret_invalid_argument)
          | some fs ↦ elim s.data_ [
            | none ↦ ok (response_stops ret_error)
            | some info ↦ respond_checked info id fs
          ]
        ]
      ]
