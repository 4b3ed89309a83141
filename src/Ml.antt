-- ===== src/Ml.antt =====
-- packages/rfmesh-ml: the library of threat profiles.
pub mod Threats
pub mod Tests
