-- ===== src/State/Invariant.antt =====
-- What every store that transactions reach has.
pub mod OneActive
pub mod Committed
pub mod Graph
pub mod Stream
pub mod Replay
pub mod Filed
