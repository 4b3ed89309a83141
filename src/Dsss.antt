-- ===== src/Dsss.antt =====
-- packages/rfmesh-dsss: the spread-spectrum link's pseudo-noise sequence, its frame format, and the
-- modulation and spreading of the bits.
pub mod Errors
pub mod Pn
pub mod Crc
pub mod Bits
pub mod Framing
pub mod Spreading
pub mod Tests
