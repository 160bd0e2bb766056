-- ===== src/Xio/LimitWriter/Ring.antt =====
-- The circular suffix of xio/limitwriter.go: what `overwriteSuffix` leaves in it.
use envbox.Prelude.{
  ℕ, zero, suc, ◌+◌, ◌-◌, ◌≤◌, ◌<◌, ◌≡◌, ◌⊎◌, refl, sym, ap, ◌∙◌, some, [], ◌∷◌, ◌++◌, append_assoc,
  append-nil, arith, Bytes, length, take, drop, drop_append_add, drop_append_at, take_append_add,
  take_append_at, length-append, length-take, length-drop, take-append-drop, drop_append_le,
  drop-drop, take_all, drop_all, ◌==◌, if◌then◌else◌, inl, inr,
}
use envbox.Xio.LimitWriter.{min_int, copy_into, overwrite_loop}

-- The bytes in the order in which they were written, for a full slice.
abbrev pub ring : Bytes → ℕ → Bytes
ring suffix off = drop off suffix ++ take off suffix

pub length-ring : (s : Bytes) (off : ℕ) → length (ring s off) ≡ length s
length-ring s off =
    omega (arith, length-append (drop off s) (take off s), length-drop off s, length-take off s)

pub min_int-eq : (a b : ℕ) → (a ≤ b → min_int a b ≡ a) × (b ≤ a → min_int a b ≡ b)
unfolding min_int
min_int-eq a b = (λ h. ground arith, λ h. ground arith)

-- A copy of `n` bytes at `off`, with `n` written out.
copy_at : Bytes → ℕ → ℕ → Bytes → Bytes
copy_at s off n b = take off s ++ (take n b ++ drop (off + n) s)

module _ (s : Bytes) (off n : ℕ) (b : Bytes) (fits : off + n ≤ length s) (has : n ≤ length b) where
  length-copy_at : length (copy_at s off n b) ≡ length s
  unfolding copy_at
  length-copy_at = omega (
    arith,
    length-append (take off s) (take n b ++ drop (off + n) s),
    length-append (take n b) (drop (off + n) s),
    length-take off s,
    length-take n b,
    length-drop (off + n) s,
  )

  -- The bytes behind the copied ones stay.
  drop-copy_at : drop (off + n) (copy_at s off n b) ≡ drop (off + n) s
  unfolding copy_at
  drop-copy_at =
      drop_append_add off n (take off s) _ (omega (arith, length-take off s))
      ∙ drop_append_at n (take n b) _ (omega (arith, length-take n b))

  take-copy_at : take (off + n) (copy_at s off n b) ≡ take off s ++ take n b
  unfolding copy_at
  take-copy_at =
      take_append_add off n (take off s) _ (omega (arith, length-take off s))
      ∙ ap (λ t. take off s ++ t) (take_append_at n (take n b) _ (omega (arith, length-take n b)))

  -- The copy writes over the oldest bytes.
  ring-copy_at : ring (copy_at s off n b) (off + n) ≡ drop n (ring s off) ++ take n b
  ring-copy_at =
      rw (drop-copy_at, take-copy_at)
        (rw (
          drop_append_le n (drop off s) (take off s) (omega (arith, length-drop off s)),
          drop-drop n off s,
          append_assoc,
        ))

ring_wrap : (s : Bytes) (n : ℕ) → n ≡ length s → ring s n ≡ ring s 0
ring_wrap s n e = rw (drop_all n s (omega arith), take_all n s (omega arith)) (sym (append-nil s))

-- What one more than enough rounds leave: the same length, an offset in range, and the last bytes.
pub record Overwritten (size : ℕ) (b s : Bytes) (off : ℕ) (out : Bytes × ℕ) : Type 0 where
  pub full : length out.0 ≡ size
  pub off_lt : out.1 < size
  pub bytes : ring out.0 out.1 ≡ drop (length b) (ring s off ++ b)

drop-take-append :
    (n : ℕ) (r b : Bytes)
    → n ≤ length b
    → n ≤ length r
    → drop (length (drop n b)) ((drop n r ++ take n b) ++ drop n b) ≡ drop (length b) (r ++ b)
drop-take-append n r b hb hr =
    let k : n + length (drop n b) ≡ length b = omega (arith, length-drop n b) in
    rw (append_assoc, take-append-drop n b, ← drop_append_le n r b hr, drop-drop) (rw k)

-- One round, with the number of copied bytes and the next offset given.
round :
    (size n : ℕ) (b s : Bytes) (off off' : ℕ)
    → length s ≡ size
    → (off' ≡ off + n) ⊎ ((off' ≡ 0) × (off + n ≡ size))
    → off + n ≤ size
    → n ≤ length b
    → ring (copy_at s off n b) off' ≡ drop n (ring s off) ++ take n b
round size n b s off off' full (inl e) fits has = rw e (ring-copy_at s off n b (omega arith) has)
round size n b s off off' full (inr (z, e)) fits has =
    let whole : off + n ≡ length (copy_at s off n b) =
      omega (arith, length-copy_at s off n b (omega arith) has) in
    rw z (
      sym (ring_wrap (copy_at s off n b) (off + n) whole)
      ∙ ring-copy_at s off n b (omega arith) has)

next_off :
    (size off n : ℕ)
    → let off' = if off + n == size then 0 else off + n in
      (off' ≡ off + n) ⊎ ((off' ≡ 0) × (off + n ≡ size))
next_off size off n = ground arith

next_off-lt :
    (size off n : ℕ) → off + n ≤ size → 0 < size → (if off + n == size then 0 else off + n) < size
next_off-lt size off n h k = ground arith

copied :
    (size off len : ℕ)
    → off < size
    → 0 < len
    → (0 < min_int (size - off) len)
      × (off + min_int (size - off) len ≤ size)
      × (min_int (size - off) len ≤ len)
unfolding min_int
copied size off len h k = ground arith

Overwritten-round :
    (size n : ℕ) (b s s' : Bytes) (off off' : ℕ) (out : Bytes × ℕ)
    → length s ≡ size
    → n ≤ size
    → n ≤ length b
    → ring s' off' ≡ drop n (ring s off) ++ take n b
    → Overwritten size (drop n b) s' off' out
    → Overwritten size b s off out
Overwritten-round size n b s s' off off' out full small has e done = record {
  full = done.full;
  off_lt = done.off_lt;
  bytes =
      done.bytes ∙ rw e (drop-take-append n (ring s off) b has (omega (arith, length-ring s off)));
}

-- The loop ends within as many rounds as there are bytes, and the slice then holds the last bytes.
pub overwrite_loop_lem :
    (fuel size : ℕ) (b s : Bytes) (off : ℕ)
    → length s ≡ size
    → off < size
    → length b ≤ fuel
    → (out : Bytes × ℕ) × (overwrite_loop fuel size b s off ≡ some out)
      × Overwritten size b s off out
unfolding overwrite_loop copy_into copy_at
overwrite_loop_lem fuel size [] s off full lt enough =
    ((s, off), refl, record { full = full; off_lt = lt; bytes = sym (append-nil (ring s off)) })
overwrite_loop_lem zero size (c ∷ b) s off full lt enough = absurd (omega arith)
overwrite_loop_lem (suc fuel) size (c ∷ b) s off full lt enough =
    let n : ℕ = min_int (length s - off) (length (c ∷ b)) in
    let off' : ℕ = if off + n == size then 0 else off + n in
    let s' : Bytes = copy_at s off n (c ∷ b) in
    let sized : (0 < n) × (off + n ≤ length s) × (n ≤ length (c ∷ b)) =
      copied (length s) off (length (c ∷ b)) (omega arith) (omega arith) in
    let facts : (0 < n) × (off + n ≤ size) × (n ≤ length (c ∷ b)) = omega arith in
    let (out, e, done) =
      overwrite_loop_lem fuel size (drop n (c ∷ b)) s' off'
        (length-copy_at s off n (c ∷ b) (omega arith) facts.2 ∙ full)
        (next_off-lt size off n facts.1 (omega arith)) (omega (arith, length-drop n (c ∷ b))) in
    (
      out,
      e,
      Overwritten-round size n (c ∷ b) s s' off off' out full (omega arith) facts.2
          (round size n (c ∷ b) s off off' full (next_off size off n) facts.1 facts.2) done,
    )
