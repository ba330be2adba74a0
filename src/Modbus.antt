-- ===== src/Modbus.antt =====
-- dcp8001_collector.py: the Modbus protocol of the DPC8001-G, over RS485 (RTU) and TCP (MBAP).
pub mod Fault
mod Tests
pub mod Crc
pub mod Registers
pub mod Socket
pub mod Tcp
pub mod Rtu
