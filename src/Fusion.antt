-- ===== src/Fusion.antt =====
-- packages/rfmesh-fusion: from the bearings of a window to a fix with its confidence.
pub mod Bearings
pub mod Window
pub mod Consensus
pub mod Confidence
pub mod Residuals
pub mod Fuser
pub mod Tests
