-- ===== src/Cli/Cliflag.antt =====
-- cli/cliflag/cliflag.go: the value that a flag has before the command line is read. `lookup` is
-- `os.LookupEnv`; a duration is what the parser of package time makes of it, a parameter.
mod Values
mod Tests
use envbox.Prelude.{
  ℕ, Bool, true, false, ◌||◌, List, [], ◌∷◌, ◌++◌, Option, none, some, Bytes, codes, same, split,
  has_suffix, failure, Result, ok, err, ◌>>=◌, if◌then◌else◌, ltb, ℤ, atoi, parse_uint, any,
}

-- `strconv.ParseBool`
pub parse_bool : Bytes → Result Bool
parse_bool s =
    let words : List Bytes → Bool = λ ws. any ws (same s) in
    if words (codes "1" ∷ codes "t" ∷ codes "T" ∷ codes "TRUE" ∷ codes "true" ∷ codes "True" ∷ [])
    then ok true
    else if words
        (codes "0" ∷ codes "f" ∷ codes "F" ∷ codes "FALSE" ∷ codes "false" ∷ codes "False" ∷ [])
    then ok false
    else err (failure (codes "invalid syntax"))

-- `strconv.ParseUint(val, 10, 8)`
pub parse_uint8 : Bytes → Result ℕ
parse_uint8 s = do
  n ← parse_uint s
  if ltb n 256 then ok n else err (failure (codes "value out of range"))

pub fmt_usage : Bytes → Bytes → Bytes
fmt_usage u [] = u
fmt_usage u (c ∷ env) =
    u ++ (if has_suffix u (codes ".") then [] else codes ".") ++ codes "\n(Consumes $" ++ (c ∷ env)

module _ (lookup : Bytes → Option Bytes) where
  -- `String` and `StringVarP`
  pub string_var : Bytes → Bytes → Bytes
  string_var env def = elim (lookup env) [ none ↦ def | some [] ↦ def | some (c ∷ v) ↦ c ∷ v ]

  -- `StringArray`: where the variable is missing, `v` is empty.
  pub string_array : Bytes → List Bytes → List Bytes
  string_array env def = elim (lookup env) [ none ↦ [] | some [] ↦ [] | some (c ∷ v) ↦ def ]

  pub string_array_var : Bytes → List Bytes → List Bytes
  string_array_var env def = elim (lookup env) [
    | none ↦ def
    | some [] ↦ []
    | some (c ∷ v) ↦ split (c ∷ v) b','
  ]

  -- The common body of `Uint8VarP`, `IntVarP`, `Bool`, `BoolVarP` and `DurationVarP`.
  pub parsed_var {ℓ} : {A : Type ℓ} → (Bytes → Result A) → Bytes → A → A
  parsed_var parse env def = elim (lookup env) [
    | none ↦ def
    | some [] ↦ def
    | some (c ∷ v) ↦ elim (parse (c ∷ v)) [ ok x ↦ x | err e ↦ def ]
  ]

  pub int_var : Bytes → ℤ → ℤ
  int_var = parsed_var atoi

  pub uint8_var : Bytes → ℕ → ℕ
  uint8_var = parsed_var parse_uint8

  pub bool_var : Bytes → Bool → Bool
  bool_var = parsed_var parse_bool

  pub duration_var {ℓ} :
      {Duration : Type ℓ} → (Bytes → Result Duration) → Bytes → Duration → Duration
  duration_var = parsed_var
