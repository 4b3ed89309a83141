-- ===== src/Servo.antt =====
-- packages/rfmesh-servo: the host side of the servo UART protocol, from the checksum up.
pub mod Errors
pub mod Crc
pub mod Cobs
pub mod Protocol
pub mod Host
pub mod Pack
pub mod Messages
pub mod Link
pub mod Driver
pub mod Tests
