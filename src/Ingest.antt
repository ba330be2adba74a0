-- ===== src/Ingest.antt =====
-- The part of cloud_api.py that collectors talk to: who may upload, and what an upload leaves in the
-- database.
pub mod Tables
pub mod Upload
pub mod Once
pub mod Again
pub mod Newest
pub mod Lease
pub mod Freshness
pub mod Exclusion
pub mod Tests
pub mod Alarms
pub mod Events
pub mod AlarmBatches
