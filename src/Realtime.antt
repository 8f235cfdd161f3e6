-- ===== src/Realtime.antt =====
-- internal/realtime: the Suite of events, and the hub that reads it once for all the readers.
pub mod Table
pub mod Hub
