-- ===== src/Host.antt =====
-- fwl_src/usbfwu: the program of the host that loads a firmware from a file into the device.
pub mod Crc
pub mod FwuList
pub mod Hex
pub mod HexFile
pub mod Transfer
pub mod Session
pub mod Command
