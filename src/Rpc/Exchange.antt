-- ===== src/Rpc/Exchange.antt =====
-- A request and its response in the enhanced mapping
-- (rmw_gurumdds_cpp/src/rmw_client.cpp, rmw_gurumdds_cpp/src/rmw_service.cpp).
use rmw_gurumdds.Base.{
  ℕ, ◌+◌, ◌%◌, ◌^◌, ◌<◌, ◌≡◌, refl, ap, Bool, true, false, List, ◌∷◌, ◌++◌, map, All, Option, some,
  ok, arith, length, take, drop, length-drop, take-drop, take_all,
}
use rmw_gurumdds.Cdr.Memory.{Mem, Endian}
use rmw_gurumdds.Message.Types.{Shape, Members, Fields}
use rmw_gurumdds.Message.Typing.{HasType}
use rmw_gurumdds.Event.Converter.{ret_ok, dds_ok}
use rmw_gurumdds.Service.{ServiceMembers}
use rmw_gurumdds.Service.Numbers.{
  ros_sn_to_dds_sn, dds_sn_to_ros_sn, dds_sn_to_ros_sn-ros_sn_to_dds_sn,
}
use rmw_gurumdds.Service.Deserialize.{deserialize_request_enhanced, deserialize_response_enhanced}
use rmw_gurumdds.Service.Enhanced.{Copy, Copy-delivers}
use rmw_gurumdds.Rpc.{Dds, with_sampleinfoex, ClientInfo, ServiceInfo, Handle, Sample, Take, sample}
use rmw_gurumdds.Rpc.Samples.{
  Read, same_bytes_self, ros_guid_to_dds_guid, dds_guid_to_ros_guid, read_enhanced, header_for,
}
use rmw_gurumdds.Rpc.Client.{
  rmw_send_request, send_checked, send_enhanced, after_write, client_of, rmw_take_response,
  take_checked, response_enhanced,
}
use rmw_gurumdds.Rpc.Server.{
  rmw_take_request, take_request_checked, take_one, request_read, request_enhanced,
  rmw_send_response, respond_checked, respond_enhanced, after_response,
}
use rmw_gurumdds.Rpc.Loop.{ReadAs, IsPassed, taken_as, take_first}

-- A client, and a service, of the enhanced mapping that has its writer and its reader.
abbrev pub enhanced_client : ServiceMembers → ℕ → List ℕ → ClientInfo
enhanced_client s n guid = record {
  service_typesupport = some (some s);
  service_mapping_basic = false;
  sequence_number = n;
  writer_guid = guid;
  has_request_writer = true;
  has_response_reader = true;
}

abbrev pub enhanced_service : ServiceMembers → Option (Handle ServiceInfo)
enhanced_service s = some (record {
  identifier_matches = true;
  data_ = some (record {
    service_typesupport = some (some s);
    service_mapping_basic = false;
    has_response_writer = true;
    has_request_reader = true;
  });
})

abbrev pub service_type : Members → Members → ServiceMembers
service_type rms pms = record { request_members = some rms; response_members = some pms }

guid_kept : (guid : List ℕ) → length guid ≡ 16 → take 12 guid ++ take 4 (drop 12 guid) ≡ guid
guid_kept guid h =
    let rest = drop 12 guid in
    let four : length rest ≡ 4 = omega (arith, h, length-drop 12 guid) in
    let all_ : take 4 rest ≡ rest = rw four at (take_all rest) in rw all_ (take-drop 12 guid)

-- A sample that carries a message, which the system `from` wrote, with a number and a guid as they
-- were handed to DDS.
pub record Carries (from : Endian) (ms : Members) (fs : Fields) (seq : ℕ) (guid : List ℕ)
    (mem : Mem) (x : Sample) : Type 0 where
  pub valid : x.valid_data ≡ true
  pub address : ℕ
  pub at_ : x.data_ ≡ some address
  pub small : x.size < 2 ^ 32
  pub numbered : x.seq ≡ seq
  pub identified : x.src_guid ≡ guid
  pub copy_ : Copy from ms fs mem address x.size

-- What the other side reads of such a sample.
abbrev pub reading : ℕ → List ℕ → Fields → Read
reading n guid fs = record { client_guid = guid; sequence_number = n; message = fs }

module _ (from to : Endian) (accepts : Shape → ℕ → Bool) (mem : Mem) (ms : Members) (fs : Fields)
    (typed : HasType from to accepts ms fs) (n : ℕ) (guid : List ℕ) (n_fits : n < 2 ^ 64)
    (guid_ok : length guid ≡ 16) (x : Sample)
    (c : Carries from ms fs (ros_sn_to_dds_sn n) (ros_guid_to_dds_guid guid) mem x)
    (s : ServiceMembers) where
  read_back : read_enhanced x (some fs) ≡ some (reading n guid fs)
  unfolding read_enhanced dds_guid_to_ros_guid ros_guid_to_dds_guid
  read_back =
      let kept : take 12 guid ++ take 4 (drop 12 guid) ≡ guid = guid_kept guid guid_ok in
      let g : take 12 x.src_guid ++ take 4 (drop 12 x.src_guid) ≡ guid =
        rw (c.identified, kept) kept in
      let q : dds_sn_to_ros_sn x.seq ≡ n =
        rw (c.numbered) (dds_sn_to_ros_sn-ros_sn_to_dds_sn n n_fits).0 in
      rw (g, q) refl

  response_read :
      s.response_members ≡ some ms
      → ReadAs (response_enhanced to accepts mem (some s)) guid x (reading n guid fs)
  unfolding response_enhanced deserialize_response_enhanced
  response_read e = record {
    valid = c.valid;
    address = c.address;
    at_ = c.at_;
    reads =
        rw (e, Copy-delivers from to accepts ms fs typed mem c.address x.size c.small c.copy_)
          (ap ok read_back);
  }

  request_taken :
      (q : List Take)
      → s.request_members ≡ some ms
      → take_one (request_enhanced to accepts mem (some s)) (sample x ∷ q)
        ≡ ok (record {
          ret = ret_ok;
          taken = some true;
          header = some (header_for x (reading n guid fs));
          message = some fs;
          rest = q;
        })
  unfolding take_one request_enhanced deserialize_request_enhanced request_read header_for
  request_taken q e =
      let copy_read =
        Copy-delivers from to accepts ms fs typed mem c.address x.size c.small c.copy_ in
      rw (c.valid, c.at_, e) (rw (copy_read, read_back) refl)

module _ (client service : Endian) (accepts : Shape → ℕ → Bool) (dds : Dds)
    (accepted : (m : Fields) (q : ℕ) (g : List ℕ) → dds.write_w_sampleinfoex m q g ≡ dds_ok)
    (rms pms : Members) (request response : Fields)
    (request_typed : HasType client service accepts rms request)
    (response_typed : HasType service client accepts pms response) (cm vm : Mem) (n : ℕ)
    (guid : List ℕ) (n_fits : n + 1 < 2 ^ 64) (guid_ok : length guid ≡ 16) where
  -- In the enhanced mapping, on systems of any byte order, if DDS accepts what is written and
  -- carries bytes, number and guid unchanged: rmw_send_request returns ok and reports the next
  -- sequence number; rmw_take_request takes the same request with that number and the client's
  -- guid; rmw_send_response for them returns ok; and rmw_take_response of the client, whatever
  -- invalid samples and responses to other clients come first, takes the same response with the
  -- reported number, and leaves what comes behind it to the next call.
  pub exchange :
      (x : Sample)
      → Carries client rms request (ros_sn_to_dds_sn (n + 1)) (ros_guid_to_dds_guid guid) vm x
      → (y : Sample)
      → Carries service pms response (ros_sn_to_dds_sn (n + 1)) (ros_guid_to_dds_guid guid) cm y
      → (passed : List Sample)
      → All
          (IsPassed (response_enhanced client accepts cm (some (service_type rms pms))) guid)
          passed
      → (m : ℕ) (q q' : List Take)
      → (rmw_send_request dds client cm
            (client_of (enhanced_client (service_type rms pms) n guid))
            (some request)
            true
          ≡ ok (record {
            ret = ret_ok;
            client = client_of (enhanced_client (service_type rms pms) (n + 1) guid);
            sequence_id = some (n + 1);
            sent =
                some (
                  with_sampleinfoex request (ros_sn_to_dds_sn (n + 1)) (ros_guid_to_dds_guid guid));
          }))
        × (rmw_take_request service accepts vm true
              (enhanced_service (service_type rms pms))
              (true, true, true)
              (sample x ∷ q)
            ≡ ok (record {
              ret = ret_ok;
              taken = some true;
              header = some (header_for x (reading (n + 1) guid request));
              message = some request;
              rest = q;
            }))
        × (rmw_send_response dds service vm
              (enhanced_service (service_type rms pms))
              (some (record { sequence_number = n + 1; writer_guid = guid }))
              (some response)
            ≡ ok (record {
              ret = ret_ok;
              sent = some (
                  with_sampleinfoex response
                    (ros_sn_to_dds_sn (n + 1))
                    (ros_guid_to_dds_guid guid));
            }))
        × (rmw_take_response client accepts cm true
              (client_of (enhanced_client (service_type rms pms) m guid))
              (true, true, true)
              (map sample passed ++ sample y ∷ q')
            ≡ ok (
                taken_as
                  (response_enhanced client accepts cm (some (service_type rms pms)))
                  guid
                  y
                  (reading (n + 1) guid response)
                  q'))
  unfolding rmw_send_request send_checked send_enhanced after_write rmw_take_request
      take_request_checked rmw_send_response respond_checked respond_enhanced after_response
      rmw_take_response take_checked
  exchange x cx y cy passed all_ m q q' =
      let next : (n + 1) % 2 ^ 64 ≡ n + 1 = omega arith in
      (
        rw (next, accepted) refl,
        request_taken client service accepts vm rms request request_typed (n + 1) guid n_fits
            guid_ok x cx (service_type rms pms) q refl,
        rw accepted refl,
        take_first (response_enhanced client accepts cm (some (service_type rms pms))) guid passed y
            (reading (n + 1) guid response) q' _ all_
            (response_read service client accepts cm pms response response_typed (n + 1) guid n_fits
              guid_ok y cy (service_type rms pms) refl)
            (same_bytes_self guid),
      )
