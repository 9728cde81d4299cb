-- ===== src/Datalogger.antt =====
-- backend/internal/datalogger: the batches of samples that loggers write, and the broker that hands
-- committed batches to subscribers, and the loggers that run at fixed intervals.
pub mod Batch
pub mod Broker
pub mod Interval
pub mod Schedule
mod Tests
