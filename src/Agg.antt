-- ===== src/Agg.antt =====
-- src/agg.c: the aggregator.
pub mod Message
pub mod Sources
pub mod Json
pub mod State
pub mod Sink
pub mod Pump
pub mod Control
pub mod Thread
pub mod Examples
