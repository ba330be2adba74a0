-- ===== src/Email.antt =====
-- email_alerts.py, with the queue's part of email_api.py: the durable queue of e-mail notifications in
-- the cloud database. What is put on it, how workers claim and finish its rows, how a changed
-- policy withdraws them, and the maintenance of a device (device_lifecycle.py), which pauses them.
pub mod Tables
mod Tests
pub mod Enqueue
pub mod Queue
pub mod Invariant
pub mod Leases
pub mod Repeat
pub mod Maintenance
pub mod Life
