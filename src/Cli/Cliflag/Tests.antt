-- ===== src/Cli/Cliflag/Tests.antt =====
-- The flags of cli/cliflag/cliflag.go at concrete environments.
use envbox.Prelude.{
  ℕ, ◌≡◌, ◌≢◌, refl, Bool, true, false, List, [], ◌∷◌, ◌++◌, Option, none, some, Bytes, codes, same,
  if◌then◌else◌, ℤ, pos, negsuc, arith, cons-ne-nil, itoa, decimal, join,
}
use envbox.Cli.Cliflag.{
  string_array, string_array_var, int_var, bool_var, parse_bool, parsed_var, fmt_usage,
}
use envbox.Cli.Cliflag.Values.{int_var-itoa, string_array_var-join, string_array_ignores}

abbrev cpus : Bytes → Option Bytes
cpus env = some (codes "-12")

int_var-itoa_run : int_var cpus (codes "CODER_CPUS") (pos 0) ≡ negsuc 11
unfolding itoa decimal
int_var-itoa_run = int_var-itoa cpus (codes "CODER_CPUS") (negsuc 11) (pos 0) (omega arith) refl

abbrev list : Bytes → Option Bytes
list env = some (codes "a,b")

string_array_var-join_run : string_array_var list (codes "LIST") [] ≡ codes "a" ∷ codes "b" ∷ []
unfolding join
string_array_var-join_run =
    string_array_var-join list (codes "LIST") (codes "a" ∷ codes "b" ∷ []) [] (cons-ne-nil _ _)
      (omega arith) (cons-ne-nil _ _) refl

string_array_ignores_run :
    (string_array list (codes "LIST") (codes "x" ∷ []) ≡ codes "x" ∷ [])
    × (string_array (λ env. none) (codes "LIST") (codes "x" ∷ []) ≡ [])
string_array_ignores_run =
    string_array_ignores list (λ env. none) (codes "LIST") (codes "a,b") (codes "x" ∷ [])
      (cons-ne-nil _ _) refl refl

bool_run : bool_var (λ env. some (codes "yes")) (codes "CODER_ADD_TUN") true ≡ true
unfolding bool_var parsed_var parse_bool same
bool_run = refl

usage_run : fmt_usage (codes "The image.") (codes "IMAGE") ≡ codes "The image.\n(Consumes $IMAGE"
unfolding fmt_usage envbox.Prelude.has_suffix
usage_run = refl
