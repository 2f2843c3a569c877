-- ===== src/Service.antt =====
-- Requests and responses of services, for the C++ type support
-- (rmw_gurumdds_cpp/include/rmw_gurumdds_cpp/type_support_service.inl).
pub mod Numbers
pub mod Serialize
pub mod Deserialize
pub mod Layout
pub mod Roundtrip
pub mod Room
pub mod Enhanced
pub mod Tests
use rmw_gurumdds.Base.{Option}
use rmw_gurumdds.Message.Types.{Members}

-- `ServiceMembers`: the descriptions of the two messages of a service, pointers that may be null.
pub record ServiceMembers : Type 0 where
  pub request_members : Option Members
  pub response_members : Option Members
