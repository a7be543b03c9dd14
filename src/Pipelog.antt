-- ===== src/Pipelog.antt =====
-- library/pipelog: log files of bounded size that agents' consoles write and that managers follow.
pub mod Tail
pub mod LimitedFile
pub mod Subscribers
