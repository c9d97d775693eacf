-- ===== src/Defines.antt =====
-- src/common/rs_defines.h and rs_defines.cpp: the numbers and structs of the protocol.
pub mod AddrType
pub mod Cmd
pub mod Encryption
pub mod Table
pub mod Safe
pub mod Bounds
pub mod Forms
pub mod Objects
pub mod Responses
pub mod DataPackets
