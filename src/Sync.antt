-- ===== src/Sync.antt =====
-- cloud_sync.py on the collector: the queues of readings and alarm events on their way to the cloud,
-- the channels of the worker and its configuration.
pub mod Status
pub mod Queue
pub mod Upload
pub mod Passes
pub mod Delivery
pub mod Pending
pub mod Drain
pub mod Retry
pub mod Channels
pub mod Tests
pub mod Config
pub mod Revision
pub mod Restart
