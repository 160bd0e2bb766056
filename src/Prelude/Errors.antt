-- ===== src/Prelude/Errors.antt =====
-- Go's `error` values: the text that `Error()` returns, and the sentinel that `errors.Is` finds.
use mathlib.Core.Bool.{Bool}
use mathlib.Core.List.{◌++◌}
use envbox.Prelude.Text.{Bytes, codes, same}

-- The name of the sentinel value in the chain of wrapped errors, empty where there is none.
pub record Error : Type 0 where
  pub cause : Bytes
  pub text : Bytes

-- `xerrors.Errorf("what: %w", err)`
unfoldable pub wrap : Bytes → Error → Error
wrap what e = record e { text = what ++ codes ": " ++ e.text }

-- `xerrors.New(text)`
abbrev pub failure : Bytes → Error
failure text = record { cause = codes ""; text = text }

-- `xerrors.Is(err, sentinel)`
unfoldable pub is_cause : Error → Bytes → Bool
is_cause e sentinel = same e.cause sentinel

-- `os.ErrNotExist`
abbrev pub not_exist : Bytes
not_exist = codes "file does not exist"
