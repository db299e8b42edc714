-- ===== src/Cipher.antt =====
-- The packet ciphers of src/AuthServer/util.cpp and Blowfish.cpp.
pub mod Stream
pub mod Blowfish
pub mod Packet
