-- ===== src/Sdr.antt =====
-- packages/rfmesh-sdr: the loopback channel between a transmitter and a receiver, and recorded
-- captures.
pub mod Loopback
pub mod Capture
pub mod Tests
