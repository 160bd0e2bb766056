-- ===== src/Xio/LimitWriter/Refine.antt =====
-- xio/limitwriter.go over a `bytes.Buffer`, against the whole of what was written.
use Prim.Native.Nat.{min}
use native.Mathlib.Decide.{dec_lt}
use envbox.Prelude.{
  ℕ, ◌+◌, ◌-◌, ◌≤◌, ◌<◌, ◌≡◌, refl, sym, ap, ◌∙◌, true, false, inl, inr, Bool-cases, some, none, [],
  ◌∷◌, ◌++◌, append-nil, arith, Bytes, length, take, drop, length-append, length-take, take_all,
  take_append_le, drop_all, drop_append_le, drop-drop, ltb, if◌then◌else◌,
}
use envbox.Xio.LimitWriter.{
  PrefixSuffixWriter, Reply, skip_message, min_int, write_prefix, fill_suffix, returns,
  write_skip_message_once, after_skip, overwrite_loop, overwrite_suffix,
}
use envbox.Xio.LimitWriter.Ring.{ring, length-ring, Overwritten, overwrite_loop_lem}

-- `bytes.Buffer`: its bytes. A write takes everything and reports no error.
abbrev pub buffer_write : Bytes → Bytes → Reply Bytes
buffer_write w b = (length b, none, w ++ b)

-- The first bytes of `h` that are still kept for the suffix.
abbrev pub cut_at : ℕ → Bytes → ℕ
cut_at n h = n + (length h - (n + n))

-- What a writer holds once it was given the bytes `h`.
pub record Holds (h : Bytes) (p : PrefixSuffixWriter Bytes) : Type 0 where
  pub pos : 0 < p.n
  pub prefix_eq : p.prefix ≡ min p.n (length h)
  pub skipped_eq : p.skipped ≡ ltb (p.n + p.n) (length h)
  pub out : p.w ≡ take p.n h ++ (if p.skipped then skip_message else [])
  pub size : length p.suffix ≡ min p.n (length h - p.n)
  pub off_lt : p.suffix_off < p.n
  pub off_zero : length p.suffix < p.n → p.suffix_off ≡ 0
  pub bytes : ring p.suffix p.suffix_off ≡ drop (cut_at p.n h) h

abbrev pub new : ℕ → PrefixSuffixWriter Bytes
new n = record { w = []; n = n; prefix = 0; suffix = []; suffix_off = 0; skipped = false }

-- A writer whose prefix is not exceeded: everything is in the buffer, and nothing elsewhere.
abbrev pub early : ℕ → Bytes → PrefixSuffixWriter Bytes
early n h = record (new n) { w = h; prefix = length h }

early-Holds : (n : ℕ) (h : Bytes) → 0 < n → length h ≤ n → Holds h (early n h)
early-Holds n h pos short = record {
  pos = pos;
  prefix_eq = omega arith;
  skipped_eq = ground arith;
  out = sym (append-nil (take n h) ∙ take_all n h short);
  size = omega arith;
  off_lt = pos;
  off_zero = λ _. refl;
  bytes = sym (drop_all (cut_at n h) h (omega arith));
}

pub new-Holds : (n : ℕ) → 0 < n → Holds [] (new n)
new-Holds n h = early-Holds n [] h (omega arith)

nil_of_length : (s : Bytes) → length s ≡ 0 → s ≡ []
nil_of_length [] e = refl
nil_of_length (c ∷ s) e = absurd (omega arith)

Holds-early :
    {h : Bytes} {p : PrefixSuffixWriter Bytes} → Holds h p → length h ≤ p.n → p ≡ early p.n h
Holds-early {h} {p} v short =
    ground
      (arith, nil_of_length p.suffix, v.off_zero, append-nil (take p.n h), take_all p.n h short)

pub length-take_min :
    (b : Bytes) (k : ℕ) → length (take (min_int (length b) k) b) ≡ min_int (length b) k
unfolding min_int
length-take_min b k = ground (arith, length-take (min_int (length b) k) b)

pub min_int_bounds : (a b : ℕ) → (min_int a b ≤ a) × (min_int a b ≤ b)
unfolding min_int
min_int_bounds a b = ground arith

write_prefix-early :
    (n : ℕ) (h b : Bytes)
    → length h < n
    → let m = min_int (length b) (n - length h) in
      write_prefix buffer_write (early n h) b ≡ (m, none, early n (h ++ take m b))
unfolding write_prefix min_int
write_prefix-early n h b lt =
    let m = min_int (length b) (n - length h) in
    ground (arith, length-take_min b (n - length h), length-append h (take m b))

-- The prefix takes what it has room for.
pub write_prefix-Holds :
    {h : Bytes} {p : PrefixSuffixWriter Bytes} (b : Bytes)
    → Holds h p
    → let m = min_int (length b) (p.n - length h) in
      (p' : PrefixSuffixWriter Bytes) × (write_prefix buffer_write p b ≡ (m, none, p'))
      × (p'.n ≡ p.n)
      × Holds (h ++ take m b) p'
unfolding write_prefix
write_prefix-Holds {h} {p} b v = elim (dec_lt (length h) p.n) [
  | yes lt ↦
      let m = min_int (length b) (p.n - length h) in
      (
        early p.n (h ++ take m b),
        ap (λ q. write_prefix buffer_write q b) (Holds-early v (omega arith))
            ∙ write_prefix-early p.n h b lt,
        refl,
        early-Holds p.n (h ++ take m b) v.pos (
            omega (
              arith,
              length-append h (take m b),
              length-take_min b (p.n - length h),
              min_int_bounds (length b) (p.n - length h),
            )),
      )
  | no ge ↦
      let z : min_int (length b) (p.n - length h) ≡ 0 =
        omega (arith, min_int_bounds (length b) (p.n - length h)) in
      (p, ground arith, refl, rw z (rw (append-nil h) v))
]

-- How many of `b` the suffix has room for.
abbrev pub room : ℕ → Bytes → Bytes → ℕ
room n h b = min_int (length b) (n - (length h - n))

-- Bytes that fit are appended to the suffix, which starts at its first place.
module _ {h : Bytes} {p : PrefixSuffixWriter Bytes} (t : Bytes) (v : Holds h p) where
  ring-fill :
      length h < p.n + p.n → p.n ≤ length h → ring (p.suffix ++ t) p.suffix_off ≡ drop p.n h ++ t
  ring-fill lt late =
      let start : p.suffix_off ≡ 0 = v.off_zero (omega arith) in
      let cut : cut_at p.n h ≡ p.n = omega arith in
      let old : p.suffix ++ [] ≡ drop p.n h = rw (start, cut) at v.bytes in
      rw start (append-nil (p.suffix ++ t) ∙ ap (λ s. s ++ t) (sym (append-nil p.suffix) ∙ old))

  Holds-fill :
      length h < p.n + p.n
      → p.n ≤ length h
      → length t ≤ p.n - (length h - p.n)
      → Holds (h ++ t) (record p { suffix = p.suffix ++ t })
  Holds-fill lt late fits = record {
    pos = v.pos;
    prefix_eq = omega (arith, length-append h t);
    skipped_eq = ground (arith, length-append h t);
    out =
        v.out
        ∙ ap (λ s. s ++ (if p.skipped then skip_message else []))
            (sym (take_append_le p.n h t late));
    size = omega (arith, length-append h t, length-append p.suffix t);
    off_lt = v.off_lt;
    off_zero = λ less. v.off_zero (omega (arith, length-append p.suffix t));
    bytes =
        let cut : cut_at p.n (h ++ t) ≡ p.n = omega (arith, length-append h t) in
        ring-fill lt late ∙ rw (cut, drop_append_le p.n h t late);
  }

pub fill_suffix-Holds :
    {h : Bytes} {p : PrefixSuffixWriter Bytes} (b : Bytes)
    → Holds h p
    → p.n ≤ length h
    → (p' : PrefixSuffixWriter Bytes) × (fill_suffix p b ≡ (drop (room p.n h b) b, p'))
      × (p'.n ≡ p.n)
      × Holds (h ++ take (room p.n h b) b) p'
unfolding fill_suffix
fill_suffix-Holds {h} {p} b v late =
    let k = room p.n h b in
    elim (dec_lt (length h) (p.n + p.n)) [
      | yes lt ↦
          let used : length p.suffix ≡ length h - p.n = omega arith in
          (
            record p { suffix = p.suffix ++ take k b },
            ground arith,
            refl,
            Holds-fill (take k b) v lt late (
                omega (
                  arith,
                  length-take_min b (p.n - (length h - p.n)),
                  min_int_bounds (length b) (p.n - (length h - p.n)),
                )),
          )
      | no ge ↦
          let z : k ≡ 0 = omega (arith, min_int_bounds (length b) (p.n - (length h - p.n))) in
          (p, ground arith, refl, rw z (rw (append-nil h) v))
    ]

module _ {h : Bytes} {p : PrefixSuffixWriter Bytes} (c : ℕ) (b : Bytes) (v : Holds h p)
    (late : p.n + p.n ≤ length h) (out : Bytes × ℕ) where
  abbrev overwritten : PrefixSuffixWriter Bytes
  overwritten = record p {
    w = take p.n h ++ skip_message;
    skipped = true;
    suffix = out.0;
    suffix_off = out.1;
  }

  after_skip-overwritten :
      (lenb : ℕ)
      → overwrite_loop (length (c ∷ b) + 1) p.n (c ∷ b) p.suffix p.suffix_off ≡ some out
      → after_skip lenb (c ∷ b) (write_skip_message_once buffer_write p)
        ≡ some (lenb, none, overwritten)
  unfolding after_skip write_skip_message_once overwrite_suffix returns
  after_skip-overwritten lenb e = elim (Bool-cases p.skipped) [
    | inl y ↦ ground (arith, v.out)
    | inr n ↦ ground (arith, append-nil (take p.n h))
  ]

  Holds-overwritten :
      Overwritten p.n (c ∷ b) p.suffix p.suffix_off out → Holds (h ++ c ∷ b) overwritten
  Holds-overwritten o = record {
    pos = v.pos;
    prefix_eq = omega (arith, length-append h (c ∷ b));
    skipped_eq = ground (arith, length-append h (c ∷ b));
    out = ap (λ s. s ++ skip_message) (sym (take_append_le p.n h (c ∷ b) (omega arith)));
    size = omega (arith, length-append h (c ∷ b), length-ring out.0 out.1, o.full);
    off_lt = o.off_lt;
    off_zero = λ less. absurd (omega (arith, o.full));
    bytes =
        let k : cut_at p.n h + length (c ∷ b) ≡ cut_at p.n (h ++ c ∷ b) =
          omega (arith, length-append h (c ∷ b)) in
        o.bytes
        ∙ rw v.bytes
            (rw (← drop_append_le (cut_at p.n h) h (c ∷ b) (omega arith), drop-drop) (rw k));
  }

-- The suffix of a writer that holds twice N bytes or more is overwritten by what follows.
pub overwrite-Holds :
    (lenb : ℕ) {h : Bytes} {p : PrefixSuffixWriter Bytes} (c : ℕ) (b : Bytes)
    → Holds h p
    → p.n + p.n ≤ length h
    → (p' : PrefixSuffixWriter Bytes) × (after_skip lenb
          (c ∷ b)
          (write_skip_message_once buffer_write p)
        ≡ some (lenb, none, p'))
      × (p'.n ≡ p.n)
      × Holds (h ++ c ∷ b) p'
overwrite-Holds lenb {h} {p} c b v late =
    let (out, e, o) =
      overwrite_loop_lem (length (c ∷ b) + 1) p.n (c ∷ b) p.suffix p.suffix_off (omega arith)
        v.off_lt (omega arith) in
    (
      overwritten c b v late out,
      after_skip-overwritten c b v late out lenb e,
      refl,
      Holds-overwritten c b v late out o,
    )
