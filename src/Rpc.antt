-- ===== src/Rpc.antt =====
-- Clients and services (rmw_gurumdds_cpp/src/rmw_client.cpp, rmw_gurumdds_cpp/src/rmw_service.cpp,
-- rmw_gurumdds_cpp/include/rmw_gurumdds_cpp/event_info_service.hpp): the state of both, and what
-- they use of DDS. A pointer that may be null is an option, or a Boolean where only the null check
-- matters.
pub mod Samples
pub mod Client
pub mod Server
pub mod Loop
pub mod Refused
pub mod Absent
pub mod Exchange
pub mod Tests
use rmw_gurumdds.Base.{ℕ, Bool, List, Option}
use rmw_gurumdds.Base.Int.{ℤ}
use rmw_gurumdds.Cdr.Memory.{Mem}
use rmw_gurumdds.Message.Types.{Fields}
use rmw_gurumdds.Event.Converter.{DdsRet}
use rmw_gurumdds.Service.{ServiceMembers}

-- The functions outside the repository that sending uses: `malloc`, `dds_DataWriter_raw_write` on
-- a memory, an address and a size, and `dds_DataWriter_write_w_sampleinfoex` on a message, a
-- sequence number and a guid.
pub record Dds : Type 0 where
  pub malloc : ℕ → Option ℕ
  pub raw_write : Mem → ℕ → ℕ → DdsRet
  pub write_w_sampleinfoex : Fields → ℕ → List ℕ → DdsRet

-- What was handed to one of the two writing functions.
pub data Sent : Type 0 where
  raw : Mem → ℕ → ℕ → Sent
  with_sampleinfoex : Fields → ℕ → List ℕ → Sent

-- `service_typesupport` is the pointer and its field `data`. A sequence number is given by its 64
-- bits, and `writer_guid` by its 16 bytes.
pub record ClientInfo : Type 0 where
  pub service_typesupport : Option (Option ServiceMembers)
  pub service_mapping_basic : Bool
  pub sequence_number : ℕ
  pub writer_guid : List ℕ
  pub has_request_writer : Bool
  pub has_response_reader : Bool

pub record ServiceInfo : Type 0 where
  pub service_typesupport : Option (Option ServiceMembers)
  pub service_mapping_basic : Bool
  pub has_response_writer : Bool
  pub has_request_reader : Bool

-- `rmw_client_t` and `rmw_service_t`: whether the identifier is that of this implementation, and
-- the field `data`.
pub record Handle (Info : Type 0) : Type 0 where
  pub identifier_matches : Bool
  pub data_ : Option Info

-- `dds_Time_t`
pub record DdsTime : Type 0 where
  pub sec : ℤ
  pub nanosec : ℕ

-- A sample as `raw_take` gives it: `data_` is the address of its bytes, and `seq` and `src_guid`
-- are fields of `dds_SampleInfoEx`.
pub record Sample : Type 0 where
  pub valid_data : Bool
  pub data_ : Option ℕ
  pub size : ℕ
  pub source_timestamp : DdsTime
  pub reception_timestamp : DdsTime
  pub seq : ℕ
  pub src_guid : List ℕ

-- One entry for each answer that the reader has for a call of `raw_take` before it has no more
-- data: a sample, or an error.
pub data Take : Type 0 where
  sample : Sample → Take
  refused : Take

-- `rmw_service_info_t`
pub record RequestHeader : Type 0 where
  pub source_timestamp : ℤ
  pub received_timestamp : ℤ
  pub sequence_number : ℕ
  pub writer_guid : List ℕ
