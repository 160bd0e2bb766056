-- ===== src/Cli/Command/StartupLog/Output.antt =====
-- What the copy of the bootstrap script's output at the end of `runDockerCVM` of cli/docker.go writes.
use envbox.Prelude.{
  ℕ, zero, suc, ◌-◌, ◌≡◌, inl, inr, refl, sym, ap, ◌∙◌, true, false, List, [], ◌∷◌, ◌++◌, Option,
  none, some, Bytes, Error, ok, Bool-cases, length, take, ltb, ◌==◌, arith,
}
use mathlib.Core.Path.{subst}
use envbox.Buildlog.Cut.{concat}
use envbox.Buildlog.Multi.{Logger, nop_logger}
use envbox.Buildlog.Coder.{Api}
use envbox.Buildlog.Json.{JsonLog, Encoder}
use envbox.Cli.Command.{Options, Host}
use envbox.Cli.Command.StartupLog.{
  State, base_log, open_blog, copy_loop, copy_output, err_short_write,
}
use envbox.Cli.Command.StartupLog.Told.{open_blog-Tells}

-- A logger whose `Write` takes all of a text, as a line.
abbrev pub TakesAll : {S : Type 0} → Logger S → Type 0
TakesAll {S} l = (p : Bytes) (s : S) → l.write p s ≡ ((length p, none), l.info p s)

-- Lines that are written in order.
abbrev pub info_all : {S : Type 0} → Logger S → List Bytes → S → S
info_all l [] s = s
info_all l (p ∷ ps) s = info_all l ps (l.info p s)

take_pieces :
    (n : ℕ) (xs ys : Bytes) → take n (xs ++ ys) ≡ take n xs ++ take (n - length (take n xs)) ys
take_pieces zero xs ys = refl
take_pieces (suc n) [] ys = ap (λ k. take k ys) {x = suc n} (omega arith)
take_pieces (suc n) (x ∷ xs) ys =
    let less : n - length (take n xs) ≡ suc n - suc (length (take n xs)) = omega arith in
    ap (λ t. x ∷ t) (take_pieces n xs ys ∙ ap (λ k. take n xs ++ take k ys) less)

nothing_taken :
    (n : ℕ) (p ys : Bytes) → length p == 0 ≡ true → take n ys ≡ p ++ take (n - length p) ys
nothing_taken n [] ys empty = ap (λ k. take k ys) (omega arith)
nothing_taken n (x ∷ p) ys empty = absurd (ground arith)

empty_piece :
    (n : ℕ) (piece ys : Bytes)
    → length (take n piece) == 0 ≡ true
    → take n ys ≡ take n (piece ++ ys)
empty_piece n piece ys empty =
    nothing_taken n (take n piece) ys empty ∙ sym (take_pieces n piece ys)

module _ {S : Type 0} (l : Logger S) (all : TakesAll l) where
  copy_loop_lem :
      (left : ℕ) (pieces : List Bytes) (s : S)
      → (lines : List Bytes) × (concat lines ≡ take left (concat pieces))
        × (copy_loop l left pieces none s ≡ (none, info_all l lines s))
  unfolding copy_loop
  copy_loop_lem zero pieces s = ([], refl, refl)
  copy_loop_lem (suc left) [] s = ([], refl, refl)
  copy_loop_lem (suc left) (piece ∷ pieces) s =
      let p = take (suc left) piece in
      elim (Bool-cases (length p == 0)) [
        | inl empty ↦
            let (lines, text, copied) = copy_loop_lem (suc left) pieces s in
            (
              lines,
              text ∙ empty_piece (suc left) piece (concat pieces) empty,
              rw (copy_loop, empty) copied,
            )
        | inr some_bytes ↦
            let (lines, text, copied) = copy_loop_lem (suc left - length p) pieces (l.info p s) in
            let same_length : (length p == length p) ≡ true = ground arith in
            (
              p ∷ lines,
              ap (λ t. p ++ t) text ∙ sym (take_pieces (suc left) piece (concat pieces)),
              rw (copy_loop, some_bytes, all p s, all p s, same_length)
                  (ap (λ r. copy_loop l (suc left - length p) pieces none r.1) (all p s) ∙ copied),
            )
      ]

-- The copy to a logger that takes all that is written.
copy_output_lem :
    {S : Type 0} (l : Logger S) (pieces : List Bytes) (s : S)
    → TakesAll l
    → (lines : List Bytes) × (concat lines ≡ take 1024 (concat pieces))
      × (copy_output l pieces none s ≡ (none, info_all l lines s))
unfolding copy_output
copy_output_lem l pieces s all = copy_loop_lem l all 1024 pieces s

-- With `NopLogger`, the copy fails at the first output there is: its `Write` returns 0 and no error, which
-- `io.Copy` takes for a short write.
copy_output-nop :
    {S : Type 0} (x : ℕ) (piece : Bytes) (pieces : List Bytes) (failed : Option Error) (s : S)
    → copy_output nop_logger ((x ∷ piece) ∷ pieces) failed s ≡ (some err_short_write, s)
unfolding copy_output copy_loop
copy_output-nop x piece pieces failed s =
    let p = take 1023 piece in
    let some_bytes : suc (length p) == 0 ≡ false = ground arith in
    let short : 0 == suc (length p) ≡ false = ground arith in
    let fewer : ltb (suc (length p)) 0 ≡ false = ground arith in
    rw (copy_loop, some_bytes, short, fewer) refl

-- With startup logs and an encoder that does not fail, the output of the bootstrap script, read with no
-- error to its end or to a kibibyte, is copied without an error, and the lines that the log is given are the
-- first kibibyte of it.
pub copy_output-open_blog :
    (h : Host) (api : Api) (e : Encoder) (f : Options) (fuel : ℕ) (s s' t : State)
    (l : Logger State) (pieces : List Bytes)
    → ((records : List JsonLog) (r : JsonLog) → e.encode records r ≡ none)
    → f.no_startup_logs ≡ false
    → open_blog h api e f fuel s ≡ some (ok l, s')
    → (lines : List Bytes) × (concat lines ≡ take 1024 (concat pieces))
      × (copy_output l pieces none t ≡ (none, info_all l lines t))
copy_output-open_blog h api e f fuel s s' t l pieces fine logs_on opened =
    copy_output_lem l pieces t
      (open_blog-Tells h api e f fine logs_on fuel s s' l opened).0.write_lem

-- Without startup logs, the copy fails with a short write at the first output of the script, since `Write` of
-- `NopLogger` returns 0 and no error.
pub copy_output-no_startup_logs :
    (h : Host) (api : Api) (e : Encoder) (f : Options) (fuel : ℕ) (s s' t : State)
    (l : Logger State) (x : ℕ) (piece : Bytes) (pieces : List Bytes) (failed : Option Error)
    → f.no_startup_logs ≡ true
    → open_blog h api e f fuel s ≡ some (ok l, s')
    → copy_output l ((x ∷ piece) ∷ pieces) failed t ≡ (some err_short_write, t)
unfolding open_blog base_log
copy_output-no_startup_logs h api e f fuel s s' t l x piece pieces failed logs_off opened =
    let is_nop : nop_logger ≡ l = cc (rw (open_blog, base_log, logs_off) at opened) in
    subst (λ k. copy_output k ((x ∷ piece) ∷ pieces) failed t ≡ (some err_short_write, t)) is_nop
      (copy_output-nop x piece pieces failed t)
