-- ===== src/Lib.antt =====
-- A verification library for hawklive, the monitoring of cleanrooms by DPC8001-G particle counters.
--
-- The program has an edge collector, which polls the devices over Modbus, evaluates alarms and stores
-- readings in SQLite, and a cloud, which receives readings and alarm events in PostgreSQL and mails
-- about alarms. Modelled are the collector's path from the wire to the alarm tables, the upload of
-- readings and alarm events with the configuration of a collector, what the cloud stores of the
-- uploads, the log entries on their way there, and the cloud's queue of notifications:
--
--   Modbus   dcp8001_collector.py. Crc: crc16_modbus, append_crc, check_crc. Registers: the register
--            map, the decoding of words and of a sample. Socket: _recv_exact and _discard_initial_data
--            over segments with times of arrival. Tcp: Dcp8001TcpClient, a method an effect on the
--            client that keeps what it wrote when it raises. Rtu: Dcp8001Client, on a serial port that
--            is what comes in during each read.
--   Alarm    alarm_config.py and the alarms of monitoring_service.py. Config: the defaults and the
--            normalisation of a policy. Checks: _metric_checks, a sample against a policy. Tables:
--            alarm_states, alarm_events and the SQL statements on them. Machine: _evaluate_alarms, the
--            transitions of one metric, the rule that is switched off, the change of the source, and
--            the loop over the checks of a sample.
--   Polling  monitoring_service.py, _poll_device_scoped and _persist_sample, for one device: storing
--            by interval, the failures and their back-off, the log.
--   Sync     cloud_sync.py. Status: _mark_success, _mark_failure, connection_status, a round of the
--            loop of _run_channel. Queue and Upload: the outbox, sync_once and sync_alarms_once, with
--            the rows that are sent one by one and those that are put aside. Config: the configuration
--            that is pulled, an item that is created, and the revision that is kept.
--   Diagnostics  collector_diagnostics.py, the bounded queue of log entries of a collector. Upload:
--            sync_diagnostics_once of cloud_sync.py, their way to the cloud. Stored: the route of
--            diagnostics_api.py that takes them.
--   Ingest   cloud_api.py, what collectors call. Lease: edge_identity. Upload: ingest_batch and
--            ingest_latest. Alarms: ingest_alarms. Tables: the tables they read and write.
--   Email    email_alerts.py and the routes of email_api.py that write: enqueue_alarm, the claim, the
--            end and the delivery of a notification, the saved policy and the test message; the
--            maintenance of a device, of device_lifecycle.py. Life: these operations one after the
--            other.
--   Sessions auth_service.py: login, user_for_token, logout.
--   Status   connection_status.py: device_snapshot and cloud_device_status.
--   Link     the two ends of the upload of readings: Sync, whose cloud is the database of Ingest.
--
-- A poll reads a sample by Modbus.Tcp.read_realtime and evaluates the alarms; in Polling both are the
-- outcome of the outside world. Alarm.Checks turns a sample and a policy into the checks that
-- Alarm.Machine takes. Readings and alarm events go to the cloud by Sync.Upload, for which the cloud
-- and the way to it are a parameter; Link fills it with Ingest.Upload, under the interface IsStoring
-- for what is lost on the way. Ingest.Alarms hands each event that it stored to
-- Email.Enqueue.enqueue_alarm in the same transaction.
--
-- Numbers. Identifiers, addresses and error texts are only compared and stand as natural numbers.
-- Times are natural numbers on one scale for each part: seconds in Alarm, Email, Sessions, Ingest
-- and Diagnostics, milliseconds in Polling, Status and Sync, any unit in Modbus. Bytes and registers
-- are natural numbers, and the theorems that need their bounds say so. Floats are a type parameter: the
-- unpacking of four bytes, rounding, the conversions of Python and the SQL MAX are parameters. So are
-- the digest and the check of passwords in Sessions, the draw of a delay in Sync, the checks of the
-- form of an identifier or a value in Ingest, and the redaction of texts in Diagnostics.
--
-- Bounds. The response loop of Tcp runs on fuel, one more than the bytes that are still to come; each
-- round takes at least eight of them, so that is enough. All other loops are
-- structural; the passes that empty a queue are counted by the work its rows still are.
--
-- Not modelled: threads, locks and the scheduler of the polls and channels (a transaction is one step,
-- and what others did in between is an argument); SMTP and HTTP themselves; of cloud_sync.py the
-- channels that push a configuration, send heartbeats and latest readings, and look for devices; of
-- cloud_api.py the routes of users, of enrolment and of discovery; the validation of addresses and
-- texts; backups, the maintenance of storage, installation, updates, device discovery, the dashboard
-- server and the browser pages.
pub mod Prelude
pub mod Modbus
pub mod Alarm
pub mod Polling
pub mod Email
pub mod Status
pub mod Sessions
pub mod Sync
pub mod Ingest
pub mod Link
pub mod Diagnostics
