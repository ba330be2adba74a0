-- ===== src/Alarm.antt =====
-- monitoring_service.py: alarms. The tables of the edge database, the alarm state machine of one
-- metric, and the evaluation of a sample.
pub mod Tables
mod Tests
pub mod Machine
pub mod Invariant
pub mod Evaluation
pub mod Config
pub mod Checks
pub mod Coverage
