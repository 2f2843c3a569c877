-- ===== src/Service/Serialize.antt =====
-- Sizes, writing and reading of requests and responses
-- (rmw_gurumdds_cpp/include/rmw_gurumdds_cpp/type_support_service.inl). In the basic mapping a
-- header with the guid of the client and the sequence number stands in front of the message; in
-- the enhanced mapping DDS carries both.
use rmw_gurumdds.Base.{
  ℕ, Bool, true, false, List, [], Option, none, some, Result, ok, ◌>>=◌, take, drop,
}
use rmw_gurumdds.Cdr.Memory.{Mem, Endian, word_value}
use rmw_gurumdds.Cdr.Words.{w32, w64}
use rmw_gurumdds.Cdr.Buffer.{CdrBuffer, serialization_buffer}
use rmw_gurumdds.Cdr.Write.{write_word, write_string}
use rmw_gurumdds.Message.Types.{Members, Fields}
use rmw_gurumdds.Message.Serialize.{serialize_message}
use rmw_gurumdds.Message.Convert.{allocate_message, catch_runtime_error}
use rmw_gurumdds.Service.{ServiceMembers}
use rmw_gurumdds.Service.Numbers.{sn_high, sn_low}

module _ (malloc : ℕ → Option ℕ) (sys : Endian) (mem : Mem) where
  unfoldable pub allocate_request_basic :
      Option ServiceMembers → Option Fields → Bool → Result (Option ℕ × Option ℕ)
  allocate_request_basic none ros_request size_given = ok (none, none)
  allocate_request_basic (some s) ros_request size_given =
      allocate_message malloc sys mem s.request_members ros_request size_given

  unfoldable pub allocate_response_basic :
      Option ServiceMembers → Option Fields → Bool → Result (Option ℕ × Option ℕ)
  allocate_response_basic none ros_response size_given = ok (none, none)
  allocate_response_basic (some s) ros_response size_given =
      allocate_message malloc sys mem s.response_members ros_response size_given

  unfoldable pub allocate_request_enhanced :
      Option ServiceMembers → Option Fields → Bool → Result (Option ℕ × Option ℕ)
  allocate_request_enhanced none ros_request size_given = ok (none, none)
  allocate_request_enhanced (some s) ros_request size_given =
      allocate_message malloc sys mem s.request_members ros_request size_given

  unfoldable pub allocate_response_enhanced :
      Option ServiceMembers → Option Fields → Bool → Result (Option ℕ × Option ℕ)
  allocate_response_enhanced none ros_response size_given = ok (none, none)
  allocate_response_enhanced (some s) ros_response size_given =
      allocate_message malloc sys mem s.response_members ros_response size_given

-- The two words as which the system reads the 16 bytes of a guid.
abbrev pub guid_word : Endian → List ℕ → ℕ
guid_word sys guid = word_value sys (take 8 guid)

module _ (sys : Endian) where
  -- What stands behind the sequence number: an empty name in a request, an exception code of 0 in
  -- a response.
  unfoldable pub write_tail : Bool → Bool → CdrBuffer → Result CdrBuffer
  write_tail s true b = write_string sys s [] b
  write_tail s false b = write_word sys s w32 0 b

  -- The lines `buffer << ...` of `serialize_service_basic`.
  unfoldable pub write_header : Bool → ℕ → List ℕ → Bool → CdrBuffer → Result CdrBuffer
  unfolding write_tail
  write_header s sequence_number client_guid is_request b = do
    b ← write_word sys s w64 (guid_word sys client_guid) b
    b ← write_word sys s w64 (guid_word sys (drop 8 client_guid)) b
    b ← write_word sys s w32 (sn_high sequence_number) b
    b ← write_word sys s w32 (sn_low sequence_number) b
    write_tail s is_request b

  module _ (mem : Mem) where
    -- Like `serialize_ros_to_cdr`, these return the memory that they leave, or `none` for false.
    unfoldable pub serialize_service_basic :
        Option Members → Fields → Option ℕ → ℕ → ℕ → List ℕ → Bool → Result (Option Mem)
    unfolding write_header catch_runtime_error
    serialize_service_basic none ros_service dds_service size sequence_number client_guid
          is_request =
        ok none
    serialize_service_basic (some ms) ros_service dds_service size sequence_number client_guid
          is_request =
        catch_runtime_error (do
          b ← serialization_buffer sys mem dds_service size
          b ← write_header true sequence_number client_guid is_request b
          b ← serialize_message sys true ms ros_service true b
          ok b.mem)

    unfoldable pub serialize_request_basic :
        Option ServiceMembers → Fields → Option ℕ → ℕ → ℕ → List ℕ → Result (Option Mem)
    unfolding serialize_service_basic
    serialize_request_basic none ros_request dds_request size sequence_number client_guid = ok none
    serialize_request_basic (some s) ros_request dds_request size sequence_number client_guid =
        serialize_service_basic s.request_members ros_request dds_request size sequence_number
          client_guid true

    unfoldable pub serialize_response_basic :
        Option ServiceMembers → Fields → Option ℕ → ℕ → ℕ → List ℕ → Result (Option Mem)
    unfolding serialize_service_basic
    serialize_response_basic none ros_response dds_response size sequence_number client_guid =
        ok none
    serialize_response_basic (some s) ros_response dds_response size sequence_number client_guid =
        serialize_service_basic s.response_members ros_response dds_response size sequence_number
          client_guid false

    unfoldable pub serialize_service_enhanced :
        Option Members → Fields → Option ℕ → ℕ → Result (Option Mem)
    unfolding catch_runtime_error
    serialize_service_enhanced none ros_service dds_service size = ok none
    serialize_service_enhanced (some ms) ros_service dds_service size = catch_runtime_error (do
      b ← serialization_buffer sys mem dds_service size
      b ← serialize_message sys true ms ros_service true b
      ok b.mem)

    unfoldable pub serialize_request_enhanced :
        Option ServiceMembers → Fields → Option ℕ → ℕ → Result (Option Mem)
    unfolding serialize_service_enhanced
    serialize_request_enhanced none ros_request dds_request size = ok none
    serialize_request_enhanced (some s) ros_request dds_request size =
        serialize_service_enhanced s.request_members ros_request dds_request size

    unfoldable pub serialize_response_enhanced :
        Option ServiceMembers → Fields → Option ℕ → ℕ → Result (Option Mem)
    unfolding serialize_service_enhanced
    serialize_response_enhanced none ros_response dds_response size = ok none
    serialize_response_enhanced (some s) ros_response dds_response size =
        serialize_service_enhanced s.response_members ros_response dds_response size
