-- ===== src/Xio.antt =====
-- xio: writers that bound or serialise what they pass on.
pub mod LimitWriter
