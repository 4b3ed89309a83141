-- ===== src/Backend.antt =====
-- deployment/backend/src/both3_poc: what the server keeps of fixes, bearings and red nodes.
pub mod Store
pub mod Ws
pub mod Tests
