-- ===== src/Sockets.antt =====
-- `CIOSocket` of src/AuthServer/IOSocket.cpp, and the buffers of IOBuffer.cpp.
pub mod Writes
pub mod Buffers
pub mod Lifetime
