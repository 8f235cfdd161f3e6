-- ===== src/Domain.antt =====
-- internal/domain: the rules that need neither a database nor a network.
pub mod Trigger
pub mod Measure
pub mod Latency
pub mod Source
