-- ===== src/Cdr.antt =====
-- The CDR buffers of rmw_gurumdds_cpp: include/rmw_gurumdds_cpp/cdr_buffer.hpp,
-- include/rmw_gurumdds_cpp/cdr_serialization_buffer.inl, src/cdr_buffer.cpp and
-- src/cdr_deser_buffer.cpp.
pub mod Memory
pub mod Swap
pub mod Words
pub mod Buffer
pub mod Codec
pub mod Write
pub mod Read
pub mod Roundtrip
