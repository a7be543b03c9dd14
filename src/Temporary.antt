-- ===== src/Temporary.antt =====
-- app/temporary: the agents' first protocol, its messages, and the hub's table of connections.
pub mod LockedMap
pub mod BucketMap
pub mod Message
pub mod Linkhub
