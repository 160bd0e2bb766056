-- ===== src/Buildlog/Tests.antt =====
-- The theorems on the log functions at concrete texts and loggers.
use envbox.Prelude.{
  ℕ, ◌+◌, ◌≡◌, ◌↔◌, refl, List, [], ◌∷◌, Option, none, some, Bytes, codes, Error, failure, arith,
  length,
}
use envbox.Buildlog.Cut.{cut_string, cut_loop, concat, IsCut, cut_string_lem}
use envbox.Buildlog.Multi.{Logger, multi_logger, closed, CloseFine, multi_logger_close}

cut_run : cut_string 9 (codes "abcdefgh") 3 ≡ some (codes "abc" ∷ codes "def" ∷ codes "gh" ∷ [])
unfolding cut_string cut_loop
cut_run = refl

cut_string_lem_run :
    (ps : List Bytes) × (cut_string 9 (codes "abcdefgh") 3 ≡ some ps)
    × (concat ps ≡ codes "abcdefgh")
    × IsCut 3 ps
cut_string_lem_run = cut_string_lem 9 (codes "abcdefgh") 3 (omega arith) (omega arith)

-- A logger that counts its calls, and fails to close or not.
abbrev counter : Option Error → Logger ℕ
counter e = record {
  info = λ t n. n + 1;
  error = λ t n. n + 1;
  close = λ n. (e, n + 1);
  write = λ t n. ((length t, none), n + 1);
}

abbrev loggers : List (Logger ℕ)
loggers =
    counter (some (failure (codes "a"))) ∷ counter none ∷ counter (some (failure (codes "b"))) ∷ []

multi_logger_close_run :
    (((multi_logger loggers).close 0).1 ≡ closed loggers 0)
    × ((((multi_logger loggers).close 0).0 ≡ none) ↔ CloseFine loggers 0)
multi_logger_close_run = multi_logger_close loggers 0
