-- ===== src/Rpc/Refused.antt =====
-- The basic mapping has no room for the service header: sending fails
-- (rmw_gurumdds_cpp/src/rmw_client.cpp, rmw_gurumdds_cpp/src/rmw_service.cpp).
use rmw_gurumdds.Base.{ℕ, ◌+◌, ◌%◌, ◌^◌, ◌<◌, ◌≡◌, refl, Bool, true, List, Option, some, ok, arith}
use rmw_gurumdds.Cdr.Memory.{Mem, Endian}
use rmw_gurumdds.Message.Types.{Shape, Members, Fields}
use rmw_gurumdds.Message.Typing.{HasType}
use rmw_gurumdds.Message.Convert.Size.{message_size}
use rmw_gurumdds.Event.Converter.{ret_error}
use rmw_gurumdds.Service.{ServiceMembers}
use rmw_gurumdds.Service.Layout.{IsGuid}
use rmw_gurumdds.Service.Room.{request_too_small, response_too_small}
use rmw_gurumdds.Rpc.{Dds, ClientInfo, ServiceInfo, Handle}
use rmw_gurumdds.Rpc.Client.{
  rmw_send_request, send_checked, send_basic, fill_request, write_request, send_stops, client_of,
}
use rmw_gurumdds.Rpc.Server.{
  RequestId, rmw_send_response, respond_checked, respond_basic, fill_response, write_response,
  response_stops,
}

-- A client, and a service, of the basic mapping that has its writer.
abbrev pub basic_client : ServiceMembers → ℕ → List ℕ → Bool → ClientInfo
basic_client s n guid reader = record {
  service_typesupport = some (some s);
  service_mapping_basic = true;
  sequence_number = n;
  writer_guid = guid;
  has_request_writer = true;
  has_response_reader = reader;
}

abbrev pub basic_service : ServiceMembers → Bool → Option (Handle ServiceInfo)
basic_service s reader = some (record {
  identifier_matches = true;
  data_ = some (record {
    service_typesupport = some (some s);
    service_mapping_basic = true;
    has_response_writer = true;
    has_request_reader = reader;
  });
})

module _ (dds : Dds) (sys : Endian) (accepts : Shape → ℕ → Bool) (mem : Mem) (ms : Members)
    (fs : Fields) (typed : HasType sys sys accepts ms fs) (small : message_size ms fs < 2 ^ 63)
    (s : ServiceMembers) (p : ℕ) (block : dds.malloc (message_size ms fs) ≡ some p) where
  -- In the basic mapping, for a client with a writer, a request of its request type below 2 ^ 63
  -- bytes and memory to allocate: rmw_send_request returns an error and hands nothing to DDS,
  -- but has counted the request.
  pub rmw_send_request-basic :
      (n : ℕ) (guid : List ℕ) (reader : Bool)
      → s.request_members ≡ some ms
      → IsGuid guid
      → rmw_send_request dds sys mem (client_of (basic_client s n guid reader)) (some fs) true
        ≡ ok (send_stops ret_error (client_of (basic_client s ((n + 1) % 2 ^ 64) guid reader)))
  unfolding rmw_send_request send_checked send_basic fill_request write_request
  rmw_send_request-basic n guid reader request guid_ok =
      let too_small =
        request_too_small sys accepts ms fs typed ((n + 1) % 2 ^ 64) guid (omega arith) guid_ok mem
          p dds.malloc s small request in
      rw (too_small.0, block, too_small.1) refl

  -- In the basic mapping, for a service with a writer, a response of its response type below
  -- 2 ^ 63 bytes and memory to allocate: rmw_send_response returns an error and hands nothing to
  -- DDS.
  pub rmw_send_response-basic :
      (id : RequestId) (reader : Bool)
      → s.response_members ≡ some ms
      → id.sequence_number < 2 ^ 64
      → IsGuid id.writer_guid
      → rmw_send_response dds sys mem (basic_service s reader) (some id) (some fs)
        ≡ ok (response_stops ret_error)
  unfolding rmw_send_response respond_checked respond_basic fill_response write_response
  rmw_send_response-basic id reader response number guid_ok =
      let too_small =
        response_too_small sys accepts ms fs typed id.sequence_number id.writer_guid number guid_ok
          mem p dds.malloc s small response in
      rw (too_small.0, block, too_small.1) refl
