-- ===== src/Message/Roundtrip.antt =====
-- Reading messages back: MessageDeserializer after MessageSerializer.
pub mod Items
pub mod Elements
pub mod Blocks
pub mod Members
