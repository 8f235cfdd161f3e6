-- ===== src/Incidents.antt =====
-- internal/incidents: the cycle from evidence to impacts and incidents, over the tables it keeps.
pub mod Schema
pub mod Rows
pub mod Presentation
pub mod Acknowledgement
pub mod Recompute
pub mod Propagation
pub mod Resumption
pub mod Ensure
pub mod Apply
pub mod Snapshot
pub mod Native
pub mod Store
pub mod Owned
pub mod Signals
pub mod Pages
pub mod Merge
pub mod Reassign
