-- ===== src/Maintenance.antt =====
-- internal/maintenance: planned windows during which incidents are muted, weekly series of them, and
-- the operations that create, cancel and extend them.
pub mod Calendar
pub mod Recurrence
pub mod Input
pub mod Store
pub mod Create
pub mod Changes
pub mod Overlap
pub mod Shown
pub mod Retries
