-- ===== src/Cli/Cliflag/Values.antt =====
-- The values that flags of cli/cliflag/cliflag.go take from the environment.
use envbox.Prelude.{
  ◌≡◌, ◌≢◌, refl, ◌∙◌, List, [], ◌∷◌, Option, none, some, Bytes, split, join, Lacks, All,
  split-join, Result, ok, ℤ, itoa, atoi, atoi-itoa, itoa-IsGraphic, IsInt64,
}
use envbox.Cli.Cliflag.{string_array, string_array_var, int_var, parsed_var}

module _ (lookup : Bytes → Option Bytes) (env : Bytes) where
  parsed_var_set {ℓ} :
      {A : Type ℓ} (parse : Bytes → Result A) (def x : A) (v : Bytes)
      → v ≢ []
      → lookup env ≡ some v
      → parse v ≡ ok x
      → parsed_var lookup parse env def ≡ x
  unfolding parsed_var
  parsed_var_set parse def x [] ne set parsed = absurd (ne refl)
  parsed_var_set parse def x (c ∷ v) ne set parsed = rw (parsed_var, set, parsed) refl

  array_var_set :
      (def : List Bytes) (v : Bytes)
      → v ≢ []
      → lookup env ≡ some v
      → string_array_var lookup env def ≡ split v b','
  unfolding string_array_var
  array_var_set def [] ne set = absurd (ne refl)
  array_var_set def (c ∷ v) ne set = rw (string_array_var, set) refl

  array_set :
      (def : List Bytes) (v : Bytes)
      → v ≢ []
      → lookup env ≡ some v
      → string_array lookup env def ≡ def
  unfolding string_array
  array_set def [] ne set = absurd (ne refl)
  array_set def (c ∷ v) ne set = rw (string_array, set) refl

  array_unset : (def : List Bytes) → lookup env ≡ none → string_array lookup env def ≡ []
  unfolding string_array
  array_unset def unset = rw (string_array, unset) refl

-- An int flag whose variable is set to the print of a 64-bit integer has that integer.
pub int_var-itoa :
    (lookup : Bytes → Option Bytes) (env : Bytes) (i def : ℤ)
    → IsInt64 i
    → lookup env ≡ some (itoa i)
    → int_var lookup env def ≡ i
unfolding int_var
int_var-itoa lookup env i def fits set =
    parsed_var_set lookup env atoi def i (itoa i) (itoa-IsGraphic i).0 set (atoi-itoa i fits)

-- A list flag of `StringArrayVarP` whose variable is set to texts without commas, joined by commas, has
-- those texts, if the joined text is not empty.
pub string_array_var-join :
    (lookup : Bytes → Option Bytes) (env : Bytes) (xs def : List Bytes)
    → xs ≢ []
    → All (Lacks b',') xs
    → join xs b',' ≢ []
    → lookup env ≡ some (join xs b',')
    → string_array_var lookup env def ≡ xs
string_array_var-join lookup env xs def ne lacks some_text set =
    array_var_set lookup env def (join xs b',') some_text set ∙ split-join xs b',' ne lacks

-- `StringArray` never takes the text of its variable: a flag whose variable is set keeps its default,
-- whatever the text, and one whose variable is missing loses its default.
pub string_array_ignores :
    (lookup lookup' : Bytes → Option Bytes) (env v : Bytes) (def : List Bytes)
    → v ≢ []
    → lookup env ≡ some v
    → lookup' env ≡ none
    → (string_array lookup env def ≡ def) × (string_array lookup' env def ≡ [])
string_array_ignores lookup lookup' env v def ne set unset =
    (array_set lookup env def v ne set, array_unset lookup' env def unset)
