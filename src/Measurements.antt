-- ===== src/Measurements.antt =====
-- src/measurements.rs: the statistics that both ends collect. `Data` has the records, `Intervals` the
-- bounded buffer, `TcpStats` the optional fields and their wire form, `Collector` the shared
-- counters, `Report` the detailed results.
pub mod Data
pub mod Intervals
pub mod TcpStats
pub mod Collector
pub mod Report
mod Tests
