-- ===== src/Node.antt =====
-- packages/rfmesh-node: the comms link, the arbiter of the servo, the bearers, the command channel, the
-- fusion of bearings, the sweep and the rendezvous, the start of a node, and the dashboard's subscribers.
pub mod Tdd
pub mod Controller
pub mod Comms
pub mod Airlink
pub mod Bearer
pub mod Envelope
pub mod Bearers
pub mod Channel
pub mod Fusion
pub mod Sweep
pub mod Rendezvous
pub mod Config
pub mod Capabilities
pub mod Dashboard
pub mod Tests
