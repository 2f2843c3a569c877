-- ===== src/Rpc/Absent.antt =====
-- Takes that bring no message (rmw_gurumdds_cpp/src/rmw_client.cpp,
-- rmw_gurumdds_cpp/src/rmw_service.cpp).
use rmw_gurumdds.Base.{
  ℕ, ◌≡◌, refl, Bool, true, false, List, [], ◌∷◌, map, All, Option, none, some, ok, Result,
}
use rmw_gurumdds.Cdr.Memory.{Mem, Endian}
use rmw_gurumdds.Message.Types.{Shape, Fields}
use rmw_gurumdds.Event.Converter.{ret_ok}
use rmw_gurumdds.Service.{ServiceMembers}
use rmw_gurumdds.Rpc.{ClientInfo, ServiceInfo, Handle, Sample, Take, sample}
use rmw_gurumdds.Rpc.Samples.{Read}
use rmw_gurumdds.Rpc.Client.{
  rmw_take_response, take_checked, response_basic, response_enhanced, take_stops, client_of,
}
use rmw_gurumdds.Rpc.Server.{rmw_take_request, take_request_checked, take_one, request_stops}
use rmw_gurumdds.Rpc.Loop.{IsPassed, take_nothing}

-- A client of either mapping that has its writer and its reader.
abbrev pub ready_client : Bool → ServiceMembers → ℕ → List ℕ → ClientInfo
ready_client basic s n guid = record {
  service_typesupport = some (some s);
  service_mapping_basic = basic;
  sequence_number = n;
  writer_guid = guid;
  has_request_writer = true;
  has_response_reader = true;
}

abbrev pub ready_service : Bool → ServiceMembers → Option (Handle ServiceInfo)
ready_service basic s = some (record {
  identifier_matches = true;
  data_ = some (record {
    service_typesupport = some (some s);
    service_mapping_basic = basic;
    has_response_writer = true;
    has_request_reader = true;
  });
})

module _ (sys : Endian) (accepts : Shape → ℕ → Bool) (mem : Mem) where
  -- How a client of either mapping reads a sample.
  abbrev pub response_of : Bool → ServiceMembers → Sample → ℕ → Result (Option Read)
  response_of true s = response_basic sys accepts mem (some s)
  response_of false s = response_enhanced sys accepts mem (some s)

  -- In either mapping, if all samples that the reader has are invalid or responses to other
  -- clients, rmw_take_response goes through all of them, returns ok and reports that nothing is
  -- taken, without writing a header.
  pub rmw_take_response-nothing :
      (basic : Bool) (s : ServiceMembers) (n : ℕ) (guid : List ℕ) (passed : List Sample)
      → All (IsPassed (response_of basic s) guid) passed
      → (m : Option Fields) × (rmw_take_response sys accepts mem true
            (client_of (ready_client basic s n guid))
            (true, true, true)
            (map sample passed)
          ≡ ok (take_stops ret_ok (some false) m []))
  unfolding rmw_take_response take_checked
  rmw_take_response-nothing true s n guid passed all_ =
      take_nothing (response_basic sys accepts mem (some s)) guid passed none all_
  rmw_take_response-nothing false s n guid passed all_ =
      take_nothing (response_enhanced sys accepts mem (some s)) guid passed none all_

  -- In either mapping, if the sample that the reader gives has no valid data, rmw_take_request
  -- returns ok and reports a request as taken, although it writes neither a header nor a request.
  pub rmw_take_request-not_valid :
      (basic : Bool) (s : ServiceMembers) (x : Sample) (q : List Take)
      → x.valid_data ≡ false
      → rmw_take_request sys accepts mem true
          (ready_service basic s)
          (true, true, true)
          (sample x ∷ q)
        ≡ ok (request_stops ret_ok (some true) q)
  unfolding rmw_take_request take_request_checked take_one
  rmw_take_request-not_valid true s x q h = rw h refl
  rmw_take_request-not_valid false s x q h = rw h refl
