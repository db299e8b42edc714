-- ===== src/Ip.antt =====
-- src/AuthServer/IPList.cpp and IPSessionDB.cpp: the limit on connections of one address, the address lists, and
-- the sessions of the IP server.
pub mod Access
pub mod Ranges
pub mod Sessions
