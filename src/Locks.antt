-- ===== src/Locks.antt =====
-- `CRWLock` and `CLock` of src/AuthServer/Lock.cpp, between the threads that use them.
pub mod ReadWrite
pub mod Spin
