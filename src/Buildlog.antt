-- ===== src/Buildlog.antt =====
-- buildlog: where the log of a workspace's start goes.
pub mod Cut
pub mod Multi
pub mod Coder
pub mod Json
mod Tests
