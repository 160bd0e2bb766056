-- ===== src/Xio/LimitWriter/Bounds.antt =====
-- What holds of xio/limitwriter.go over every underlying writer, failing ones included.
use mathlib.Core.List.{cons-ne-nil}
use native.Mathlib.Decide.{ℕ_discrete}
use mathlib.Core.Path.{subst}
use envbox.Prelude.{
  ℕ, zero, suc, ◌+◌, ◌-◌, ◌≤◌, ◌<◌, ◌≡◌, ◌≢◌, refl, sym, ap, ◌∙◌, true, false, inl, inr, Option,
  some, none, [], ◌∷◌, ◌++◌, arith, Bytes, Error, length, take, drop, length-append, length-take,
  ltb, ◌==◌, if◌then◌else◌, Bool-cases,
}
use envbox.Xio.LimitWriter.{
  PrefixSuffixWriter, Reply, min_int, write_prefix, fill_suffix, after_prefix, after_fill,
  write_skip_message_once, after_skip, returns, overwrite_suffix, overwrite_loop, copy_into, write,
}
use envbox.Xio.LimitWriter.Ring.{overwrite_loop_lem}
use envbox.Xio.LimitWriter.Refine.{min_int_bounds}
use envbox.Xio.LimitWriter.Output.{nonempty}

-- The contract of `io.Writer`: no more bytes are reported than were given.
abbrev pub Counts : {W : Type 0} → (W → Bytes → Reply W) → Type 0
Counts {W} write_to = (w : W) (b : Bytes) → (write_to w b).0 ≤ length b

-- What the writer keeps stays in bounds, and every index into the slice is in range.
pub record IsBounded {W : Type 0} (p : PrefixSuffixWriter W) : Type 0 where
  pub pos : 0 < p.n
  pub prefix_le : p.prefix ≤ p.n
  pub suffix_le : length p.suffix ≤ p.n
  pub off_lt : p.suffix_off < p.n

-- A write that returns: with a bounded writer of the same limit, and the whole count or an error.
abbrev Ends : {W : Type 0} → ℕ → ℕ → Option (Reply (PrefixSuffixWriter W)) → Type 0
Ends {W} lenb n r =
    (m : ℕ) × (e : Option Error) × (q : PrefixSuffixWriter W) × (r ≡ some (m, e, q))
    × IsBounded q
    × (q.n ≡ n)
    × (e ≡ none → m ≡ lenb)

module _ {W : Type 0} (write_to : W → Bytes → Reply W) (counts : Counts write_to) where
  write_prefix-IsBounded :
      {p : PrefixSuffixWriter W} (b : Bytes)
      → IsBounded p
      → IsBounded (write_prefix write_to p b).2 × ((write_prefix write_to p b).2.n ≡ p.n)
  unfolding write_prefix
  write_prefix-IsBounded {p} b v =
      let limit = p.n - p.prefix in
      let len : ℕ = if ltb (length b) limit then length b else limit in
      let small : len ≤ limit = ground arith in
      let count : (write_to p.w (take len b)).0 ≤ limit =
        omega (arith, counts p.w (take len b), length-take len b) in
      elim (Bool-cases (limit == 0)) [
        | inl full ↦ rw full (v, refl)
        | inr more ↦ rw more (
          record {
            pos = v.pos;
            prefix_le = omega arith;
            suffix_le = v.suffix_le;
            off_lt = v.off_lt;
          },
          refl,
        )
      ]

module _ {W : Type 0} where
  fill_suffix-IsBounded :
      {p : PrefixSuffixWriter W} (b : Bytes)
      → IsBounded p
      → let (rest, p') = fill_suffix p b in
        IsBounded p' × (p'.n ≡ p.n) × (rest ≢ [] → length p'.suffix ≡ p.n)
  unfolding fill_suffix
  fill_suffix-IsBounded {p} b v =
      let k : ℕ = min_int (length b) (p.n - length p.suffix) in
      let fits : length (p.suffix ++ take k b) ≤ p.n = omega (
        arith,
        v.suffix_le,
        length-append p.suffix (take k b),
        length-take k b,
        min_int_bounds (length b) (p.n - length p.suffix),
      ) in
      elim (ℕ_discrete (length p.suffix) p.n) [
        | yes e ↦
            let test : (length p.suffix == p.n) ≡ true = ground arith in rw test (v, refl, λ _. e)
        | no ne ↦
            let test : (length p.suffix == p.n) ≡ false = ground arith in
            let room : ltb 0 (p.n - length p.suffix) ≡ true = ground arith in
            rw (test, room)
              (
                record {
                  pos = v.pos;
                  prefix_le = v.prefix_le;
                  suffix_le = omega (arith, fits);
                  off_lt = v.off_lt;
                },
                refl,
                λ some_left. ground (
                  arith,
                  nonempty k b some_left,
                  length-append p.suffix (take k b),
                  length-take k b,
                ),
              )
      ]

  overwrite_suffix-IsBounded :
      {p : PrefixSuffixWriter W} (b : Bytes)
      → IsBounded p
      → (b ≢ [] → length p.suffix ≡ p.n)
      → (p' : PrefixSuffixWriter W) × (overwrite_suffix p b ≡ some p') × IsBounded p' × (p'.n ≡ p.n)
  unfolding overwrite_suffix
  overwrite_suffix-IsBounded {p} [] v full = unfold overwrite_loop in (p, refl, v, refl)
  overwrite_suffix-IsBounded {p} (c ∷ b) v full =
      let (out, e, o) =
        overwrite_loop_lem (length (c ∷ b) + 1) p.n (c ∷ b) p.suffix p.suffix_off
          (full (cons-ne-nil c b)) v.off_lt (omega arith) in
      (
        record p { suffix = out.0; suffix_off = out.1 },
        rw e,
        record {
          pos = v.pos;
          prefix_le = v.prefix_le;
          suffix_le = omega (arith, o.full);
          off_lt = o.off_lt;
        },
        refl,
      )

  returned-IsBounded :
      {p : PrefixSuffixWriter W} (lenb : ℕ) (b : Bytes)
      → IsBounded p
      → (b ≢ [] → length p.suffix ≡ p.n)
      → Ends lenb p.n (returns lenb (overwrite_suffix p b))
  unfolding returns
  returned-IsBounded lenb b v full =
      let (q, e, vq, same_n) = overwrite_suffix-IsBounded b v full in
      (lenb, none, q, rw e, vq, same_n, λ _. refl)

  after_skip-Ends :
      (lenb : ℕ) (b : Bytes) (r : Option Error × PrefixSuffixWriter W)
      → IsBounded r.1
      → (b ≢ [] → length r.1.suffix ≡ r.1.n)
      → Ends lenb r.1.n (after_skip lenb b r)
  unfolding after_skip
  after_skip-Ends lenb b (some e, q) v full = (0, some e, q, refl, v, refl, λ h. cc)
  after_skip-Ends lenb b (none, q) v full = returned-IsBounded lenb b v full

module _ {W : Type 0} (write_to : W → Bytes → Reply W) where
  write_skip_message_once-IsBounded :
      {p : PrefixSuffixWriter W}
      → IsBounded p
      → let q = (write_skip_message_once write_to p).1 in
        IsBounded q × (q.n ≡ p.n) × (q.suffix ≡ p.suffix)
  unfolding write_skip_message_once
  write_skip_message_once-IsBounded {p} v = elim (Bool-cases p.skipped) [
    | inl y ↦ simp y (v, refl, refl)
    | inr n ↦ simp n (
      record { pos = v.pos; prefix_le = v.prefix_le; suffix_le = v.suffix_le; off_lt = v.off_lt },
      refl,
      refl,
    )
  ]

  after_fill-Ends :
      (lenb : ℕ) (r : Bytes × PrefixSuffixWriter W)
      → IsBounded r.1
      → (r.0 ≢ [] → length r.1.suffix ≡ r.1.n)
      → Ends lenb r.1.n (after_fill write_to lenb r)
  unfolding after_fill
  after_fill-Ends lenb ([], q) v full = returned-IsBounded lenb [] v full
  after_fill-Ends lenb (c ∷ b, q) v full =
      let (vs, same_n, same_suffix) = write_skip_message_once-IsBounded v in
      subst (λ k. Ends lenb k (after_skip lenb (c ∷ b) (write_skip_message_once write_to q))) same_n
        (after_skip-Ends lenb (c ∷ b) (write_skip_message_once write_to q) vs
          (λ h. ap length same_suffix ∙ full (cons-ne-nil c b) ∙ sym same_n))

  after_prefix-Ends :
      (b : Bytes) (r : Reply (PrefixSuffixWriter W))
      → IsBounded r.2
      → Ends (length b) r.2.n (after_prefix write_to b r)
  unfolding after_prefix
  after_prefix-Ends b (m, some e, q) v = (m, some e, q, refl, v, refl, λ h. cc)
  after_prefix-Ends b (m, none, q) v = elim (Bool-cases (m == length b)) [
    | inl all ↦ rw all (length b, none, q, refl, v, refl, λ _. refl)
    | inr more ↦
        let (vf, same_n, full) = fill_suffix-IsBounded (drop m b) v in
        rw more (
          subst (λ k. Ends (length b) k (after_fill write_to (length b) (fill_suffix q (drop m b))))
            same_n
            (after_fill-Ends (length b) (fill_suffix q (drop m b)) vf (λ h. full h ∙ sym same_n)))
  ]

-- Over any underlying writer that keeps to its contract, whichever of its writes fail, a write to a
-- bounded writer returns and leaves it bounded with the same limit, and reports the whole count
-- unless it reports an error.
pub write-IsBounded :
    {W : Type 0} (write_to : W → Bytes → Reply W) {p : PrefixSuffixWriter W} (b : Bytes)
    → Counts write_to
    → IsBounded p
    → (m : ℕ) × (e : Option Error) × (q : PrefixSuffixWriter W) × (write write_to p b
        ≡ some (m, e, q))
      × IsBounded q
      × (q.n ≡ p.n)
      × (e ≡ none → m ≡ length b)
unfolding write
write-IsBounded write_to {p} b counts v =
    let (vp, same_n) = write_prefix-IsBounded write_to counts b v in
    subst (λ k. Ends (length b) k (after_prefix write_to b (write_prefix write_to p b))) same_n
      (after_prefix-Ends write_to b (write_prefix write_to p b) vp)

-- With a limit of 0 the loop of `overwriteSuffix` never ends: no number of rounds is enough.
pub overwrite_loop_zero : (fuel : ℕ) (c : ℕ) (b : Bytes) → overwrite_loop fuel 0 (c ∷ b) [] 0 ≡ none
unfolding overwrite_loop copy_into
overwrite_loop_zero zero c b = refl
overwrite_loop_zero (suc fuel) c b =
    let z : min_int 0 (length (c ∷ b)) ≡ 0 = omega (arith, min_int_bounds 0 (length (c ∷ b))) in
    subst
      (λ k.
        overwrite_loop fuel 0 (drop k (c ∷ b)) (take k (c ∷ b) ++ drop (0 + k) [])
          (if 0 + k == 0 then 0 else 0 + k)
        ≡ none)
      (sym z) (overwrite_loop_zero fuel c b)
