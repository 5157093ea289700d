-- ===== src/Ospfs.antt =====
-- lab3/ospfsmod.c and ospfs.h: the OSPFS file system module.
pub mod Mem
pub mod Bitvector
pub mod Layout
pub mod Alloc
pub mod Index
pub mod Resize
pub mod Io
pub mod Dir
pub mod LinuxInode
pub mod Format
mod Tests
