-- ===== src/Rpc/Client.antt =====
-- `rmw_send_request` and `rmw_take_response` (rmw_gurumdds_cpp/src/rmw_client.cpp).
use rmw_gurumdds.Base.{
  ℕ, ◌+◌, ◌%◌, ◌^◌, Bool, true, false, not, if◌then◌else◌, List, [], ◌∷◌, Option, none, some,
  Result, ok, ◌>>=◌,
}
use rmw_gurumdds.Cdr.Memory.{Mem, Endian}
use rmw_gurumdds.Message.Types.{Shape, Fields}
use rmw_gurumdds.Event.Converter.{
  RmwRet, ret_ok, ret_error, ret_invalid_argument, ret_incorrect_rmw_implementation, DdsRet, dds_ok,
}
use rmw_gurumdds.Service.{ServiceMembers}
use rmw_gurumdds.Service.Numbers.{ros_sn_to_dds_sn}
use rmw_gurumdds.Service.Serialize.{allocate_request_basic, serialize_request_basic}
use rmw_gurumdds.Service.Deserialize.{deserialize_response_basic, deserialize_response_enhanced}
use rmw_gurumdds.Rpc.{
  Dds, Sent, raw, with_sampleinfoex, ClientInfo, Handle, Sample, Take, sample, refused,
  RequestHeader,
}
use rmw_gurumdds.Rpc.Samples.{
  same_bytes, ros_guid_to_dds_guid, Read, read_basic, read_enhanced, header_for,
}

-- The code returned, the client as it is left, `*sequence_id` if it is written, and what was handed
-- to DDS.
pub record SendOutcome : Type 0 where
  pub ret : RmwRet
  pub client : Option (Handle ClientInfo)
  pub sequence_id : Option ℕ
  pub sent : Option Sent

abbrev pub send_stops : RmwRet → Option (Handle ClientInfo) → SendOutcome
send_stops r c = record { ret = r; client = c; sequence_id = none; sent = none }

abbrev pub client_of : ClientInfo → Option (Handle ClientInfo)
client_of info = some (record { identifier_matches = true; data_ = some info })

-- `++client_info->sequence_number`
abbrev pub count_request : ClientInfo → ClientInfo
count_request info = record info { sequence_number = (info.sequence_number + 1) % 2 ^ 64 }

-- The tests on the code that the writing functions return.
unfoldable pub after_write : DdsRet → ClientInfo → Sent → SendOutcome
after_write dds_ok info s = record {
  ret = ret_ok;
  client = client_of info;
  sequence_id = some info.sequence_number;
  sent = some s;
}
after_write _ info s = record {
  ret = ret_error;
  client = client_of info;
  sequence_id = none;
  sent = some s;
}

module _ (dds : Dds) (sys : Endian) (mem : Mem) where
  -- What follows the call of `serialize_request_basic`.
  unfoldable pub write_request : ClientInfo → ℕ → ℕ → Option Mem → SendOutcome
  unfolding after_write
  write_request info dds_request size none = send_stops ret_error (client_of info)
  write_request info dds_request size (some out) =
      after_write (dds.raw_write out dds_request size) info (raw out dds_request size)

  -- What follows the call of `allocate_request_basic`; `size` was 0 before it.
  unfoldable pub fill_request :
      ClientInfo → Option ServiceMembers → Fields → Option ℕ × Option ℕ → Result SendOutcome
  unfolding write_request
  fill_request info s ros_request (none, size) = ok (send_stops ret_error (client_of info))
  fill_request info s ros_request (some dds_request, none) = do
    let next = count_request info
    res ←
        serialize_request_basic sys mem s ros_request (some dds_request) 0 next.sequence_number
          next.writer_guid
    ok (write_request next dds_request 0 res)
  fill_request info s ros_request (some dds_request, some size) = do
    let next = count_request info
    res ←
        serialize_request_basic sys mem s ros_request (some dds_request) size next.sequence_number
          next.writer_guid
    ok (write_request next dds_request size res)

  -- The branch for `service_mapping_basic`.
  unfoldable pub send_basic : ClientInfo → Option ServiceMembers → Fields → Result SendOutcome
  unfolding fill_request
  send_basic info s ros_request = do
    allocated ← allocate_request_basic dds.malloc sys mem s (some ros_request) true
    fill_request info s ros_request allocated

  -- The other branch.
  unfoldable pub send_enhanced : ClientInfo → Fields → SendOutcome
  unfolding after_write
  send_enhanced info ros_request =
      let next = count_request info in
      let seq = ros_sn_to_dds_sn next.sequence_number in
      let src_guid = ros_guid_to_dds_guid next.writer_guid in
      after_write (dds.write_w_sampleinfoex ros_request seq src_guid) next
        (with_sampleinfoex ros_request seq src_guid)

  -- The checks of the writer and of the type support.
  unfoldable pub send_checked : ClientInfo → Fields → Result SendOutcome
  unfolding send_basic send_enhanced
  send_checked info ros_request =
      if not info.has_request_writer
      then ok (send_stops ret_error (client_of info))
      else elim info.service_typesupport [
        | none ↦ ok (send_stops ret_error (client_of info))
        | some s ↦
            if info.service_mapping_basic
            then send_basic info s ros_request
            else ok (send_enhanced info ros_request)
      ]

  unfoldable pub rmw_send_request :
      Option (Handle ClientInfo) → Option Fields → Bool → Result SendOutcome
  unfolding send_checked
  rmw_send_request none ros_request sequence_id = ok (send_stops ret_invalid_argument none)
  rmw_send_request (some c) ros_request sequence_id =
      if not c.identifier_matches
      then ok (send_stops ret_incorrect_rmw_implementation (some c))
      else elim ros_request [
        | none ↦ ok (send_stops ret_invalid_argument (some c))
        | some fs ↦
            if not sequence_id
            then ok (send_stops ret_invalid_argument (some c))
            else elim c.data_ [
              | none ↦ ok (send_stops ret_error (some c))
              | some info ↦ send_checked info fs
            ]
      ]

-- The code returned, `*taken` if it is written, `*request_header` if it is written, the message
-- that was read last into `*ros_response`, and what the reader still has.
pub record TakeOutcome : Type 0 where
  pub ret : RmwRet
  pub taken : Option Bool
  pub header : Option RequestHeader
  pub message : Option Fields
  pub rest : List Take

abbrev pub take_stops : RmwRet → Option Bool → Option Fields → List Take → TakeOutcome
take_stops r t m q = record { ret = r; taken = t; header = none; message = m; rest = q }

-- The body of the loops behind `deserialize_response_basic` and `deserialize_response_enhanced`:
-- if it returned false the loop stops, and a response to another client continues it.
unfoldable pub take_read :
    List ℕ → Sample → Option Read → TakeOutcome → (Fields → Result TakeOutcome) → Result TakeOutcome
take_read writer_guid s none failure continue_ = ok failure
take_read writer_guid s (some r) failure continue_ =
    let rest = continue_ r.message in
    if same_bytes writer_guid r.client_guid
    then ok (record {
      ret = ret_ok;
      taken = some true;
      header = some (header_for s r);
      message = some r.message;
      rest = failure.rest;
    })
    else rest

-- The two loops, which differ in `read`; `last` is what `*ros_response` holds.
unfoldable pub take_loop :
    (Sample → ℕ → Result (Option Read)) → List ℕ → Option Fields → List Take → Result TakeOutcome
unfolding take_read
take_loop read writer_guid last [] = ok (take_stops ret_ok (some false) last [])
take_loop read writer_guid last (refused ∷ q) = ok (take_stops ret_error (some false) last q)
take_loop read writer_guid last (sample s ∷ q) =
    let rest = take_loop read writer_guid last q in
    if s.valid_data
    then elim s.data_ [
      | none ↦ ok (take_stops ret_error (some false) last q)
      | some p ↦ read s p >>= λ r.
          take_read writer_guid s r (take_stops ret_error (some false) last q)
            (λ m. take_loop read writer_guid (some m) q)
    ]
    else rest

module _ (sys : Endian) (accepts : Shape → ℕ → Bool) (mem : Mem) where
  unfoldable pub response_basic : Option ServiceMembers → Sample → ℕ → Result (Option Read)
  response_basic s x p = do
    res ← deserialize_response_basic sys accepts mem s p x.size
    ok (read_basic res)

  unfoldable pub response_enhanced : Option ServiceMembers → Sample → ℕ → Result (Option Read)
  response_enhanced s x p = do
    res ← deserialize_response_enhanced sys accepts mem s p x.size
    ok (read_enhanced x res)

  -- What `rmw_take_response` does once the arguments are checked. The three sequences that it
  -- creates are there if `sequences` is true.
  unfoldable pub take_checked : Bool → ClientInfo → List Take → Result TakeOutcome
  unfolding take_loop response_basic response_enhanced
  take_checked sequences info q =
      if not info.has_response_reader
      then ok (take_stops ret_error (some false) none q)
      else elim info.service_typesupport [
        | none ↦ ok (take_stops ret_error (some false) none q)
        | some s ↦
            if not sequences
            then ok (take_stops ret_error (some false) none q)
            else if info.service_mapping_basic
            then take_loop (response_basic s) info.writer_guid none q
            else take_loop (response_enhanced s) info.writer_guid none q
      ]

  -- `given` tells for each of `request_header`, `ros_response` and `taken` whether it is not null.
  unfoldable pub rmw_take_response :
      Bool → Option (Handle ClientInfo) → Bool × Bool × Bool → List Take → Result TakeOutcome
  unfolding take_checked
  rmw_take_response sequences none given q = ok (take_stops ret_invalid_argument none none q)
  rmw_take_response sequences (some c) (header, message, taken) q =
      if not c.identifier_matches
      then ok (take_stops ret_incorrect_rmw_implementation none none q)
      else if not header
      then ok (take_stops ret_invalid_argument none none q)
      else if not message
      then ok (take_stops ret_invalid_argument none none q)
      else if not taken
      then ok (take_stops ret_invalid_argument none none q)
      else elim c.data_ [
        | none ↦ ok (take_stops ret_error (some false) none q)
        | some info ↦ take_checked sequences info q
      ]
