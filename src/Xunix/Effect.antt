-- ===== src/Xunix/Effect.antt =====
-- The calls by which the program changes the outer container: methods of xunix.FS in xunix/fs.go and of
-- the mounter in xunix/mount.go. What a call answers depends on the calls before it.
pub mod Makes
use envbox.Prelude.{ℕ, ℤ, List, Option, Bytes, Error}
pub use envbox.Prelude.Steps.{Nil, nil, ◌>>=◌, return, within}
unfoldable pub use envbox.Prelude.Steps.{after, call, answered}
use envbox.Prelude.Steps.{Step}

pub data Effect : Type 0 where
  mkdir_all : Bytes → ℕ → Effect
  mknod : Bytes → ℕ → ℕ → Effect
  chmod : Bytes → ℕ → Effect
  chown : Bytes → ℤ → ℤ → Effect
  mount_rw : Bytes → Effect

-- The error of a call behind the calls before it.
abbrev pub Answer : Type 0
Answer = List Effect → Effect → Option Error

abbrev pub Run {ℓ} : Type ℓ → Type ℓ
Run A = Step Effect A

-- A call, with what its error is wrapped in.
unfoldable pub perform : Answer → Effect → Bytes → Run Nil
unfolding call
perform answer e what = call what e (λ t. answer t e)
