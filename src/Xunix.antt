-- ===== src/Xunix.antt =====
-- xunix: the parts of the operating system that envbox reads and changes.
pub mod Mount
pub mod Symlinks
pub mod Sys
pub mod Gpu
pub mod Effect
pub mod Device
pub mod User
