-- ===== src/Device.antt =====
-- nemu/src/device and abstract-machine/am/src/platform/nemu/ioe: the devices and their drivers.
pub mod Port
pub mod Keyboard
pub mod Fifo
pub mod Typing
pub mod Sdcard
pub mod Card
pub mod ExtCsd
pub mod Audio
pub mod Player
pub mod Ring
pub mod Stream
pub mod Wait
pub mod Play
pub mod Ports
pub mod Clock
pub mod Screen
pub mod Drawing
