-- ===== src/Wire.antt =====
-- The bytes that the transports exchange: DelegateMQ/port/transport/common/DmqHeader.h, the checksum
-- of extras/util/crc16.h, and the transports of port/transport.
pub mod Xor
pub mod Crc
pub mod Frame
pub mod Port
pub mod Tcp
pub mod Udp
pub mod Serial
pub mod Dispatch
