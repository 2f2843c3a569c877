-- ===== src/Cdr/Roundtrip.antt =====
-- Writing with the operators `<<` and reading back with `>>`, on a system of either byte order.
pub mod Words
pub mod Strings
pub mod Arrays
pub mod Foreign
