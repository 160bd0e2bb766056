-- ===== src/Prelude/Numbers.antt =====
-- Go's `int` on 64 bits, and `strconv.Itoa` and `strconv.Atoi`.
use Prim.Native.Nat.{ℕ, zero, suc, ◌+◌, ◌-◌, ◌*◌, ◌/◌, ◌%◌, ◌≤◌, ◌<◌, ◌^◌}
use mathlib.Core.Path.{◌≡◌, refl, ap, ◌∙◌}
use mathlib.Core.Logic.{◌≢◌}
use mathlib.Core.Bool.{true, false, ◌||◌}
use mathlib.Core.List.{[], ◌∷◌, ◌++◌, cons-ne-nil}
use native.Mathlib.Omega.{arith}
use envbox.Prelude.Tests.{◌==◌, if◌then◌else◌, leb, ltb}
use native.Mathlib.Decide.{dec_lt}
use envbox.Prelude.Lists.{All, All-append}
use envbox.Prelude.Text.{Bytes, codes}
use envbox.Prelude.Errors.{failure}
use envbox.Prelude.Fallible.{Result, ok, err, ◌>>=◌}

pub data ℤ : Type 0 where
  pos : ℕ → ℤ
  negsuc : ℕ → ℤ

-- The difference of two numbers.
abbrev pub sub_nat : ℕ → ℕ → ℤ
sub_nat n m = if ltb n m then negsuc (m - suc n) else pos (n - m)

infixl 6 ◌+ℤ◌
abbrev pub ◌+ℤ◌ : ℤ → ℤ → ℤ
pos a +ℤ pos b = pos (a + b)
pos a +ℤ negsuc b = sub_nat a (suc b)
negsuc a +ℤ pos b = sub_nat b (suc a)
negsuc a +ℤ negsuc b = negsuc (suc (a + b))

-- The decimal digits of a number, with as many rounds as `fuel`.
digits : ℕ → ℕ → Bytes
digits zero n = []
digits (suc fuel) n = elim (ltb n 10) [
  | true ↦ (b'0' + n) ∷ []
  | false ↦ digits fuel (n / 10) ++ (b'0' + n % 10) ∷ []
]

unfoldable pub decimal : ℕ → Bytes
unfolding digits
decimal n = digits (suc n) n

-- `strconv.Itoa`, and `%d` of an `int`
unfoldable pub itoa : ℤ → Bytes
itoa (pos n) = decimal n
itoa (negsuc n) = b'-' ∷ decimal (suc n)

-- The digits of `strconv.ParseUint`, which stops at the first byte that is wrong or too much.
scan : Bytes → ℕ → Result ℕ
scan [] n = ok n
scan (c ∷ s) n =
    let next = n * 10 + (c - b'0') in
    let rest = scan s next in
    if ltb c b'0' || ltb b'9' c
    then err (failure (codes "invalid syntax"))
    else if leb (2 ^ 64) next
    then err (failure (codes "value out of range"))
    else rest

unfoldable pub parse_uint : Bytes → Result ℕ
unfolding scan
parse_uint [] = err (failure (codes "invalid syntax"))
parse_uint (c ∷ s) = scan (c ∷ s) 0

positive : ℕ → Result ℤ
positive n = if ltb n (2 ^ 63) then ok (pos n) else err (failure (codes "value out of range"))

negative : ℕ → Result ℤ
negative zero = ok (pos 0)
negative (suc n) =
    if ltb n (2 ^ 63) then ok (negsuc n) else err (failure (codes "value out of range"))

-- `strconv.Atoi`
unfoldable pub atoi : Bytes → Result ℤ
unfolding parse_uint positive negative
atoi [] = err (failure (codes "invalid syntax"))
atoi (c ∷ s) =
    if c == b'-'
    then parse_uint s >>= negative
    else if c == b'+'
    then parse_uint s >>= positive
    else parse_uint (c ∷ s) >>= positive

-- The values of a 64-bit `int`.
abbrev pub IsInt64 : ℤ → Type 0
IsInt64 (pos n) = n < 2 ^ 63
IsInt64 (negsuc n) = n < 2 ^ 63

abbrev pub IsDigit : ℕ → Type 0
IsDigit c = (b'0' ≤ c) × (c ≤ b'9')

scan-snoc :
    (s : Bytes) (k d n : ℕ)
    → scan s k ≡ ok n
    → d < 10
    → n * 10 + d < 2 ^ 64
    → scan (s ++ (b'0' + d) ∷ []) k ≡ ok (n * 10 + d)
unfolding scan
scan-snoc [] k d n h lt fits = ground arith
scan-snoc (c ∷ s) k d n h lt fits = ground (arith, scan-snoc s (k * 10 + (c - b'0')) d n)

module _ (fuel n : ℕ) where
  digits_small : n < 10 → digits (suc fuel) n ≡ (b'0' + n) ∷ []
  unfolding digits
  digits_small h = ground arith

  digits_big : 10 ≤ n → digits (suc fuel) n ≡ digits fuel (n / 10) ++ (b'0' + n % 10) ∷ []
  unfolding digits
  digits_big h = ground arith

scan_one : (d : ℕ) → d < 10 → scan ((b'0' + d) ∷ []) 0 ≡ ok d
unfolding scan
scan_one d h = ground arith

scan-digits : (fuel n : ℕ) → n < fuel → n < 2 ^ 64 → scan (digits fuel n) 0 ≡ ok n
scan-digits zero n lt fits = absurd (omega arith)
scan-digits (suc fuel) n lt fits = elim (dec_lt n 10) [
  | yes small ↦ rw (digits_small fuel n small) (scan_one n small)
  | no big ↦
      let e : n / 10 * 10 + n % 10 ≡ n = omega arith in
      rw (digits_big fuel n (omega arith)) (
        scan-snoc (digits fuel (n / 10)) 0 (n % 10) (n / 10)
          (scan-digits fuel (n / 10) (omega arith) (omega arith)) (omega arith) (omega arith)
        ∙ ap ok e)
]

-- A digit and more bytes, all digits.
abbrev IsNumeral : Bytes → Type 0
IsNumeral [] = ⊥
IsNumeral (c ∷ s) = IsDigit c × All IsDigit s

IsNumeral-snoc : (s : Bytes) (d : ℕ) → IsNumeral s → d < 10 → IsNumeral (s ++ (b'0' + d) ∷ [])
IsNumeral-snoc [] d h lt = absurd h
IsNumeral-snoc (c ∷ s) d (h, a) lt = (h, All-append IsDigit s _ a ((omega arith, omega arith), tt))

digits-IsNumeral : (fuel n : ℕ) → n < fuel → IsNumeral (digits fuel n)
digits-IsNumeral zero n lt = absurd (omega arith)
digits-IsNumeral (suc fuel) n lt = elim (dec_lt n 10) [
  | yes small ↦ rw (digits_small fuel n small) ((omega arith, omega arith), tt)
  | no big ↦ rw (digits_big fuel n (omega arith)) (
      IsNumeral-snoc (digits fuel (n / 10)) (n % 10) (digits-IsNumeral fuel (n / 10) (omega arith))
        (omega arith))
]

decimal-IsNumeral : (n : ℕ) → IsNumeral (decimal n)
unfolding decimal
decimal-IsNumeral n = digits-IsNumeral (suc n) n (omega arith)

parse_uint-numeral : (s : Bytes) → IsNumeral s → parse_uint s ≡ scan s 0
unfolding parse_uint
parse_uint-numeral [] h = absurd h
parse_uint-numeral (c ∷ s) h = refl

atoi-numeral : (s : Bytes) → IsNumeral s → atoi s ≡ scan s 0 >>= positive
unfolding atoi parse_uint
atoi-numeral [] h = absurd h
atoi-numeral (c ∷ s) (h, _) = ground arith

scan-decimal : (n : ℕ) → n < 2 ^ 64 → scan (decimal n) 0 ≡ ok n
unfolding decimal
scan-decimal n h = scan-digits (suc n) n (omega arith) h

-- `strconv.Atoi` reads back what `strconv.Itoa` prints.
pub atoi-itoa : (i : ℤ) → IsInt64 i → atoi (itoa i) ≡ ok i
unfolding itoa
atoi-itoa (pos n) h =
    atoi-numeral (decimal n) (decimal-IsNumeral n)
    ∙ rw (scan-decimal n (omega arith)) (unfold positive in ground arith)
atoi-itoa (negsuc n) h =
    let e : atoi (b'-' ∷ decimal (suc n)) ≡ parse_uint (decimal (suc n)) >>= negative =
      unfold atoi in refl in
    e
    ∙ rw
        (
          parse_uint-numeral (decimal (suc n)) (decimal-IsNumeral (suc n)),
          scan-decimal (suc n) (omega arith),
        )
        (unfold negative in ground arith)

-- No byte of a number in print is white space, nor a letter.
abbrev pub IsGraphic : Bytes → Type 0
IsGraphic s = All (λ c. (b'-' ≤ c) × (c ≤ b'9')) s

All-IsGraphic : (s : Bytes) → All IsDigit s → IsGraphic s
All-IsGraphic [] a = tt
All-IsGraphic (c ∷ s) (h, a) = ((omega arith, omega arith), All-IsGraphic s a)

IsNumeral-IsGraphic : (s : Bytes) → IsNumeral s → (s ≢ []) × IsGraphic s
IsNumeral-IsGraphic [] h = absurd h
IsNumeral-IsGraphic (c ∷ s) (h, a) =
    (cons-ne-nil c s, ((omega arith, omega arith), All-IsGraphic s a))

pub itoa-IsGraphic : (i : ℤ) → (itoa i ≢ []) × IsGraphic (itoa i)
unfolding itoa
itoa-IsGraphic (pos n) = IsNumeral-IsGraphic (decimal n) (decimal-IsNumeral n)
itoa-IsGraphic (negsuc n) = (
  cons-ne-nil _ _,
  (
    (omega arith, omega arith),
    (IsNumeral-IsGraphic (decimal (suc n)) (decimal-IsNumeral (suc n))).1,
  ),
)
