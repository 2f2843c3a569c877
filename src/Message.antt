-- ===== src/Message.antt =====
-- Conversion of ROS messages to and from CDR for the C++ type support:
-- rmw_gurumdds_cpp/include/rmw_gurumdds_cpp/message_serializer.inl and message_deserializer.inl.
pub mod Types
pub mod Serialize
pub mod Deserialize
pub mod Typing
pub mod Spacing
pub mod Roundtrip
pub mod Convert
