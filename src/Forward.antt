-- ===== src/Forward.antt =====
-- The forwarding plane: Smf::ProcessPacket of src/common/smf.cpp.
pub mod Packet
pub mod Macs
pub mod Plane
pub mod Process
pub mod Settings
pub mod Rules
pub mod Memory
pub mod Once
pub mod Delivery
pub mod Window
pub mod Allowed
pub mod Unicast
pub mod Flood
pub mod WindowTests
pub mod Tests
