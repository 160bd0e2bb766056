-- ===== src/Background.antt =====
-- background: commands that run behind envbox.
pub mod Process
pub mod Lifecycle
