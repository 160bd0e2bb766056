-- ===== src/Xunix/Mount.antt =====
-- xunix/mount.go: the `Mount` of a path of the outer container into the inner one.
use envbox.Prelude.{Bool, Bytes}

pub record Mount : Type 0 where
  pub source : Bytes
  pub mountpoint : Bytes
  pub read_only : Bool
