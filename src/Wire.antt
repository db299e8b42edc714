-- ===== src/Wire.antt =====
-- The byte stream of a connection: packets put together by `Assemble`, framed by the `Send` methods,
-- and taken apart by the `OnRead` methods.
pub mod Framing
pub mod Assemble
