-- ===== src/Prelude/Quote.antt =====
-- The verb `%q` of Go's `fmt`, which is `strconv.Quote`, on ASCII bytes.
use Prim.Native.Nat.{ℕ, ◌+◌, ◌-◌, ◌/◌, ◌%◌}
use mathlib.Core.Bool.{◌||◌}
use mathlib.Core.List.{[], ◌∷◌, ◌++◌, flat_map}
use envbox.Prelude.Tests.{ltb, ◌==◌, if◌then◌else◌}
use envbox.Prelude.Text.{Bytes}

hex_digit : ℕ → ℕ
hex_digit d = if ltb d 10 then b'0' + d else b'a' + (d - 10)

-- The letter behind the backslash for a byte with an escape of its own, and 0 for any other.
escape_letter : ℕ → ℕ
escape_letter c =
    if c == 7
    then b'a'
    else if c == 8
    then b'b'
    else if c == 12
    then b'f'
    else if c == 10
    then b'n'
    else if c == 13
    then b'r'
    else if c == 9
    then b't'
    else if c == 11
    then b'v'
    else if c == b'"'
    then b'"'
    else if c == b'\\'
    then b'\\'
    else 0

quote_byte : ℕ → Bytes
unfolding escape_letter hex_digit
quote_byte c =
    let e = escape_letter c in
    if e == 0
    then if ltb c 32 || c == 127
      then b'\\' ∷ b'x' ∷ hex_digit (c / 16) ∷ hex_digit (c % 16) ∷ []
      else c ∷ []
    else b'\\' ∷ e ∷ []

unfoldable pub quote : Bytes → Bytes
unfolding quote_byte flat_map
quote s = b'"' ∷ (flat_map quote_byte s ++ b'"' ∷ [])
