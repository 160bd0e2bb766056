-- ===== src/Xio/LimitWriter.antt =====
-- xio/limitwriter.go: `PrefixSuffixWriter`, which passes on the first N bytes that it is given and
-- keeps the last N in a circular slice until `Flush`.
--
-- The underlying `io.Writer` is a state `W` with a `Write` function, a parameter of the model. A
-- loop that needs more rounds than its fuel gives `none`; `Write` gives its loop one round for each
-- byte and one more.
pub mod Ring
pub mod Refine
pub mod Output
pub mod Bounds
mod Tests
use envbox.Prelude.{
  ℕ, zero, suc, ◌+◌, ◌-◌, ◌≡◌, Bool, true, false, Option, none, some, List, [], ◌∷◌, ◌++◌, Bytes,
  codes, Error, ltb, leb, ◌==◌, if◌then◌else◌, length, take, drop,
}

-- What a call of `Write` reports, with the writer as it leaves it.
abbrev pub Reply : Type 0 → Type 0
Reply W = ℕ × Option Error × W

pub record PrefixSuffixWriter (W : Type 0) : Type 0 where
  pub w : W
  pub n : ℕ
  pub prefix : ℕ
  pub suffix : Bytes
  pub suffix_off : ℕ
  pub skipped : Bool

abbrev pub skip_message : Bytes
skip_message = codes "\nTruncating output...\n\n"

abbrev pub err_short_write : Error
err_short_write = record { cause = codes "short write"; text = codes "short write" }

pub min_int : ℕ → ℕ → ℕ
min_int a b = if ltb a b then a else b

-- `io.Copy` from a reader over a byte slice: the reader hands all of it to one `Write`, none if it
-- is empty, and reports a short count without an error as `io.ErrShortWrite`.
short_write : ℕ → ℕ → Option Error → Option Error
short_write m len (some e) = some e
short_write m len none = if m == len then none else some err_short_write

-- `n := copy(p.suffix[off:], b)`: the slice after the copy.
pub copy_into : Bytes → ℕ → Bytes → Bytes
copy_into suffix off b =
    let n = min_int (length suffix - off) (length b) in
    take off suffix ++ (take n b ++ drop (off + n) suffix)

-- The loop of `overwriteSuffix`.
pub overwrite_loop : ℕ → ℕ → Bytes → Bytes → ℕ → Option (Bytes × ℕ)
overwrite_loop fuel size [] suffix off = some (suffix, off)
overwrite_loop zero size (c ∷ b) suffix off = none
overwrite_loop (suc fuel) size (c ∷ b) suffix off =
    let n = min_int (length suffix - off) (length (c ∷ b)) in
    overwrite_loop fuel size (drop n (c ∷ b)) (copy_into suffix off (c ∷ b))
      (if off + n == size then 0 else off + n)

module _ {W : Type 0} (write_to : W → Bytes → Reply W) where
  pub copy_all : W → Bytes → Option Error × W
  unfolding short_write
  copy_all w [] = (none, w)
  copy_all w (c ∷ b) =
      let (m, err, w') = write_to w (c ∷ b) in (short_write m (length (c ∷ b)) err, w')

  flush_rest : PrefixSuffixWriter W → Option Error → W → Option Error × PrefixSuffixWriter W
  unfolding copy_all
  flush_rest p (some e) w = (some e, record p { w = w })
  flush_rest p none w =
      let (err, w') = copy_all w (take p.suffix_off p.suffix) in (err, record p { w = w' })

  pub flush : PrefixSuffixWriter W → Option Error × PrefixSuffixWriter W
  unfolding flush_rest copy_all
  flush p = let (err, w) = copy_all p.w (drop p.suffix_off p.suffix) in flush_rest p err w

  -- `limit <= 0` is `limit == 0`, since `-` stops at 0.
  pub write_prefix : PrefixSuffixWriter W → Bytes → Reply (PrefixSuffixWriter W)
  write_prefix p b =
      let limit = p.n - p.prefix in
      let (m, err, w') = write_to p.w (take (if ltb (length b) limit then length b else limit) b) in
      if limit == 0 then (0, none, p) else (m, err, record p { w = w'; prefix = p.prefix + m })

  pub write_skip_message_once : PrefixSuffixWriter W → Option Error × PrefixSuffixWriter W
  unfolding copy_all
  write_skip_message_once p =
      let (err, w') = copy_all p.w skip_message in
      if p.skipped then (none, p) else (err, record p { w = w'; skipped = true })

module _ {W : Type 0} where
  pub fill_suffix : PrefixSuffixWriter W → Bytes → Bytes × PrefixSuffixWriter W
  unfolding min_int
  fill_suffix p b =
      let remain = p.n - length p.suffix in
      let add = min_int (length b) remain in
      if length p.suffix == p.n
      then (b, p)
      else if ltb 0 remain
      then (drop add b, record p { suffix = p.suffix ++ take add b })
      else (b, p)

  store_suffix : PrefixSuffixWriter W → Option (Bytes × ℕ) → Option (PrefixSuffixWriter W)
  store_suffix p none = none
  store_suffix p (some (suffix, off)) = some (record p { suffix = suffix; suffix_off = off })

  pub overwrite_suffix : PrefixSuffixWriter W → Bytes → Option (PrefixSuffixWriter W)
  unfolding store_suffix
  overwrite_suffix p b = store_suffix p (overwrite_loop (length b + 1) p.n b p.suffix p.suffix_off)

  returns : ℕ → Option (PrefixSuffixWriter W) → Option (Reply (PrefixSuffixWriter W))
  returns lenb none = none
  returns lenb (some p) = some (lenb, none, p)

  pub after_skip :
      ℕ → Bytes → Option Error × PrefixSuffixWriter W → Option (Reply (PrefixSuffixWriter W))
  after_skip lenb b (some e, p) = some (0, some e, p)
  after_skip lenb b (none, p) = returns lenb (overwrite_suffix p b)

module _ {W : Type 0} (write_to : W → Bytes → Reply W) where
  after_fill : ℕ → Bytes × PrefixSuffixWriter W → Option (Reply (PrefixSuffixWriter W))
  after_fill lenb ([], p) = returns lenb (overwrite_suffix p [])
  after_fill lenb (c ∷ b, p) = after_skip lenb (c ∷ b) (write_skip_message_once write_to p)

  after_prefix : Bytes → Reply (PrefixSuffixWriter W) → Option (Reply (PrefixSuffixWriter W))
  after_prefix b (m, some e, p) = some (m, some e, p)
  after_prefix b (m, none, p) =
      if m == length b
      then some (length b, none, p)
      else after_fill (length b) (fill_suffix p (drop m b))

  -- `Write`
  pub write : PrefixSuffixWriter W → Bytes → Option (Reply (PrefixSuffixWriter W))
  write p b = after_prefix b (write_prefix write_to p b)
