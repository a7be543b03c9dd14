-- ===== src/Mlink.antt =====
-- bridge/mlink: the registry of connected agents and the hub that admits them.
pub mod SafeMap
pub mod SegmentMap
pub mod Ident
pub mod Hub
pub mod Subsection
