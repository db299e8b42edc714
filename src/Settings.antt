-- ===== src/Settings.antt =====
-- src/AuthServer/Config.cpp, Parser.cpp and GlobalAuth.cpp: the settings of the program.
pub mod Reactivation
pub mod Logging
pub mod Tokens
pub mod File
pub mod Names
pub mod Load
