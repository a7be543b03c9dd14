-- ===== src/Mgtsvc.antt =====
-- app/mgtsvc: what the broker does for the center with the agents of its hub. An agent is the world `W`
-- that a message changes and that answers it.
pub mod Minion
pub mod Rsync
pub mod Rounds
pub mod Reports
pub mod Notices
pub mod Outcomes
