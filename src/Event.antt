-- ===== src/Event.antt =====
-- The events of publishers and subscriptions: rmw_gurumdds_cpp/src/event_converter.cpp,
-- rmw_gurumdds_cpp/src/event_info_common.cpp and, of rmw_gurumdds_cpp/src/qos.cpp, the policy ids.
pub mod Converter
pub mod Policy
pub mod Notifier
pub mod Publisher
pub mod Subscriber
pub mod Topic
mod Tests
