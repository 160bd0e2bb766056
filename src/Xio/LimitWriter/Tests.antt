-- ===== src/Xio/LimitWriter/Tests.antt =====
-- xio/limitwriter_internal_test.go, and the theorems at concrete inputs.
use envbox.Prelude.{
  ℕ, ◌≡◌, refl, some, none, Option, List, [], ◌∷◌, ◌++◌, arith, Bytes, codes, Error,
}
use mathlib.Core.List.{flatten}
use envbox.Xio.LimitWriter.{
  PrefixSuffixWriter, Reply, skip_message, min_int, short_write, copy_all, flush_rest, flush,
  write_prefix, fill_suffix, after_prefix, after_fill, write_skip_message_once, after_skip, returns,
  overwrite_suffix, overwrite_loop, store_suffix, copy_into, write,
}
use envbox.Xio.LimitWriter.Refine.{buffer_write, Holds, new, new-Holds}
use envbox.Xio.LimitWriter.Output.{then_write, write_all, write-Holds, shown, flush-write_all}
use envbox.Xio.LimitWriter.Bounds.{Counts, IsBounded, write-IsBounded, overwrite_loop_zero}

abbrev chunks : List Bytes
chunks = codes "Te" ∷ codes "sti" ∷ codes "ng" ∷ []

-- What the writer shows of these chunks with a limit of two bytes.
abbrev shows : Option (PrefixSuffixWriter Bytes) → Bytes
shows none = []
shows (some p) = (flush buffer_write p).1.w

output_truncated : shows (write_all chunks (new 2)) ≡ codes "Te" ++ (skip_message ++ codes "ng")
unfolding write_all then_write write after_prefix write_prefix after_fill fill_suffix after_skip
    write_skip_message_once returns overwrite_suffix store_suffix overwrite_loop copy_into min_int
    copy_all short_write flush flush_rest
output_truncated = refl

no_truncate : shows (write_all (codes "Test" ∷ []) (new 2)) ≡ codes "Test"
unfolding write_all then_write write after_prefix write_prefix after_fill fill_suffix after_skip
    write_skip_message_once returns overwrite_suffix store_suffix overwrite_loop copy_into min_int
    copy_all short_write flush flush_rest
no_truncate = refl

write-Holds_example :
    (p' : PrefixSuffixWriter Bytes) × (write buffer_write (new 2) (codes "Testing")
      ≡ some (7, none, p'))
    × (p'.n ≡ 2)
    × Holds ([] ++ codes "Testing") p'
write-Holds_example = write-Holds (codes "Testing") (new-Holds 2 (omega arith))

flush-write_all_example :
    (p p' : PrefixSuffixWriter Bytes) × (write_all chunks (new 2) ≡ some p)
    × (flush buffer_write p ≡ (none, p'))
    × (p'.w ≡ shown 2 (codes "Testing"))
unfolding flatten
flush-write_all_example = flush-write_all 2 chunks (omega arith)

-- A writer that takes one byte and then fails.
abbrev failing : Bytes → Bytes → Reply Bytes
failing w [] = (0, none, w)
failing w (c ∷ b) = (1, some (record { cause = []; text = codes "full" }), w ++ c ∷ [])

failing-Counts : Counts failing
failing-Counts w [] = omega arith
failing-Counts w (c ∷ b) = omega arith

write-IsBounded_example :
    (m : ℕ) × (e : Option Error) × (q : PrefixSuffixWriter Bytes) × (write failing
        (new 2)
        (codes "Testing")
      ≡ some (m, e, q))
    × IsBounded q
    × (q.n ≡ 2)
    × (e ≡ none → m ≡ 7)
write-IsBounded_example = write-IsBounded failing (codes "Testing") failing-Counts (omega arith)

overwrite_loop_zero_run : overwrite_loop 1000 0 (codes "x") [] 0 ≡ none
overwrite_loop_zero_run = overwrite_loop_zero 1000 b'x' []
