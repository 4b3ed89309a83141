-- ===== src/Cot.antt =====
-- packages/rfmesh-cot: the registry of the operator's markers, and the publisher.
pub mod Store
pub mod Publisher
pub mod Tests
