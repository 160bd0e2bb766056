-- ===== src/Xio/LimitWriter/Output.antt =====
-- What reaches the buffer of xio/limitwriter.go after any writes and a `Flush`.
use mathlib.Core.List.{cons-ne-nil, flatten}
use native.Mathlib.Decide.{dec_lt, ℕ_discrete}
use envbox.Prelude.{
  ℕ, ◌+◌, ◌-◌, ◌≤◌, ◌<◌, ◌≡◌, ◌≢◌, refl, ap, ◌∙◌, true, false, Option, some, none, List, [], ◌∷◌,
  ◌++◌, append_assoc, append-nil, arith, Bytes, length, take, drop, length-append, length-take,
  take_all, take-append-drop, drop_all, ltb, if◌then◌else◌, lt→ltb,
}
use envbox.Xio.LimitWriter.{
  PrefixSuffixWriter, Reply, skip_message, min_int, fill_suffix, after_prefix, after_fill, returns,
  overwrite_suffix, overwrite_loop, copy_all, short_write, write, flush, flush_rest,
}
use envbox.Xio.LimitWriter.Ring.{ring}
use envbox.Xio.LimitWriter.Refine.{
  buffer_write, Holds, new, new-Holds, cut_at, room, write_prefix-Holds, fill_suffix-Holds,
  overwrite-Holds,
}

-- Where the rest `b` of a write goes: into the free places of the suffix, and then over it.
after_fill-Holds :
    (lenb : ℕ) {h : Bytes} {p : PrefixSuffixWriter Bytes} (b : Bytes)
    → Holds h p
    → (b ≢ [] → p.n + p.n ≤ length h)
    → (p' : PrefixSuffixWriter Bytes) × (after_fill buffer_write lenb (b, p)
        ≡ some (lenb, none, p'))
      × (p'.n ≡ p.n)
      × Holds (h ++ b) p'
unfolding after_fill returns overwrite_suffix overwrite_loop
after_fill-Holds lenb {h} {p} [] v full = (p, refl, refl, rw (append-nil h) v)
after_fill-Holds lenb {h} {p} (c ∷ b) v full = overwrite-Holds lenb c b v (full (cons-ne-nil c b))

pub nonempty : (k : ℕ) (b : Bytes) → drop k b ≢ [] → k < length b
nonempty k b h = elim (dec_lt k (length b)) [
  | yes lt ↦ lt
  | no ge ↦ absurd (h (drop_all k b (omega arith)))
]

suffix_full :
    (n : ℕ) (h b : Bytes)
    → n ≤ length h
    → room n h b < length b
    → n + n ≤ length (h ++ take (room n h b) b)
unfolding min_int
suffix_full n h b late more =
    let k = n - (length h - n) in ground (arith, length-append h (take k b), length-take k b)

-- Behind a full prefix `b` goes into the suffix.
rest-Holds :
    (lenb : ℕ) {h : Bytes} {p : PrefixSuffixWriter Bytes} (b : Bytes)
    → Holds h p
    → p.n ≤ length h
    → (p' : PrefixSuffixWriter Bytes) × (after_fill buffer_write lenb (fill_suffix p b)
        ≡ some (lenb, none, p'))
      × (p'.n ≡ p.n)
      × Holds (h ++ b) p'
rest-Holds lenb {h} {p} b v late =
    let k = room p.n h b in
    let (q, e, same_n, vq) = fill_suffix-Holds b v late in
    let whole : (h ++ take k b) ++ drop k b ≡ h ++ b =
      append_assoc h (take k b) (drop k b) ∙ ap (λ t. h ++ t) (take-append-drop k b) in
    let (r, f, same_n', vr) =
      after_fill-Holds lenb (drop k b) vq
        (λ some_left. rw same_n (suffix_full p.n h b late (nonempty k b some_left))) in
    (r, rw e f, same_n' ∙ same_n, rw whole at vr)

prefix_full :
    (n : ℕ) (h b : Bytes)
    → min_int (length b) (n - length h) ≢ length b
    → n ≤ length (h ++ take (min_int (length b) (n - length h)) b)
unfolding min_int
prefix_full n h b more =
    let k = n - length h in ground (arith, length-append h (take k b), length-take k b)

-- A write of any bytes to a writer that holds `h` returns their number and no error, and the writer
-- then holds `h` with them behind it.
pub write-Holds :
    {h : Bytes} {p : PrefixSuffixWriter Bytes} (b : Bytes)
    → Holds h p
    → (p' : PrefixSuffixWriter Bytes) × (write buffer_write p b ≡ some (length b, none, p'))
      × (p'.n ≡ p.n)
      × Holds (h ++ b) p'
unfolding write after_prefix
write-Holds {h} {p} b v =
    let m = min_int (length b) (p.n - length h) in
    let (q, e, same_n, vq) = write_prefix-Holds b v in
    elim (ℕ_discrete m (length b)) [
      | yes all ↦
          let whole : h ++ take m b ≡ h ++ b = ap (λ t. h ++ t) (take_all m b (omega arith)) in
          (q, ground (arith, e), same_n, rw whole at vq)
      | no more ↦
          let whole : (h ++ take m b) ++ drop m b ≡ h ++ b =
            append_assoc h (take m b) (drop m b) ∙ ap (λ t. h ++ t) (take-append-drop m b) in
          let (r, f, same_n', vr) =
            rest-Holds (length b) (drop m b) vq (rw same_n (prefix_full p.n h b more)) in
          (r, ground (arith, e, f), same_n' ∙ same_n, rw whole at vr)
    ]

-- The next write, if the one before returned without an error.
unfoldable pub then_write :
    (PrefixSuffixWriter Bytes → Option (PrefixSuffixWriter Bytes))
    → Option (Reply (PrefixSuffixWriter Bytes))
    → Option (PrefixSuffixWriter Bytes)
then_write k none = none
then_write k (some (m, some e, p)) = none
then_write k (some (m, none, p)) = k p

-- The writes of `bs`, one after the other; `none` if one reports an error or does not return.
unfoldable pub write_all : List Bytes → PrefixSuffixWriter Bytes → Option (PrefixSuffixWriter Bytes)
unfolding then_write
write_all [] p = some p
write_all (b ∷ bs) p = then_write (write_all bs) (write buffer_write p b)

pub write_all-Holds :
    (bs : List Bytes) {h : Bytes} {p : PrefixSuffixWriter Bytes}
    → Holds h p
    → (p' : PrefixSuffixWriter Bytes) × (write_all bs p ≡ some p')
      × (p'.n ≡ p.n)
      × Holds (h ++ flatten bs) p'
unfolding write_all flatten
write_all-Holds [] {h} {p} v = (p, refl, refl, rw append-nil v)
write_all-Holds (b ∷ bs) {h} {p} v =
    let (q, e, same_n, vq) = write-Holds b v in
    let (r, f, same_n', vr) = write_all-Holds bs vq in
    (r, rw e f, same_n' ∙ same_n, rw (append_assoc h b (flatten bs)) at vr)

copy_all-buffer : (w b : Bytes) → copy_all buffer_write w b ≡ (none, w ++ b)
unfolding copy_all short_write
copy_all-buffer w [] = rw append-nil
copy_all-buffer w (c ∷ b) = ground arith

flush-buffer :
    (p : PrefixSuffixWriter Bytes)
    → flush buffer_write p ≡ (none, record p { w = p.w ++ ring p.suffix p.suffix_off })
unfolding flush flush_rest
flush-buffer p = rw (copy_all-buffer, copy_all-buffer, append_assoc)

-- What is shown of the bytes `h`: all of them up to twice N, else the first N and the last N.
abbrev pub shown : ℕ → Bytes → Bytes
shown n h =
    if ltb (n + n) (length h) then take n h ++ (skip_message ++ drop (length h - n) h) else h

Holds-shown :
    {h : Bytes} {p : PrefixSuffixWriter Bytes}
    → Holds h p
    → p.w ++ ring p.suffix p.suffix_off ≡ shown p.n h
Holds-shown {h} {p} v = elim (dec_lt (p.n + p.n) (length h)) [
  | yes long ↦
      let skipped : p.skipped ≡ true = ground arith in
      let cut : cut_at p.n h ≡ length h - p.n = omega arith in
      let out : p.w ≡ take p.n h ++ skip_message = rw skipped at v.out in
      let bytes : ring p.suffix p.suffix_off ≡ drop (length h - p.n) h = rw cut at v.bytes in
      rw (out, bytes, lt→ltb (p.n + p.n) (length h) long) (append_assoc (take p.n h) skip_message _)
  | no short ↦
      let fits : ltb (p.n + p.n) (length h) ≡ false = ground arith in
      let skipped : p.skipped ≡ false = v.skipped_eq ∙ fits in
      let cut : cut_at p.n h ≡ p.n = omega arith in
      let out : p.w ≡ take p.n h ++ [] = rw skipped at v.out in
      let bytes : ring p.suffix p.suffix_off ≡ drop p.n h = rw cut at v.bytes in
      rw (out, bytes, fits, append-nil) (take-append-drop p.n h)
]

-- A writer with a positive limit that is given any texts, in any pieces, and is then flushed, returns
-- no error from any of it, and its buffer holds the whole of a text of at most 2N bytes, and else its
-- first N bytes, the message and its last N bytes.
pub flush-write_all :
    (n : ℕ) (bs : List Bytes)
    → 0 < n
    → (p p' : PrefixSuffixWriter Bytes) × (write_all bs (new n) ≡ some p)
      × (flush buffer_write p ≡ (none, p'))
      × (p'.w ≡ shown n (flatten bs))
flush-write_all n bs pos =
    let (p, e, same_n, v) = write_all-Holds bs (new-Holds n pos) in
    (
      p,
      record p { w = p.w ++ ring p.suffix p.suffix_off },
      e,
      flush-buffer p,
      Holds-shown v ∙ ap (λ k. shown k (flatten bs)) same_n,
    )
