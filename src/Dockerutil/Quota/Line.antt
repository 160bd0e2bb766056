-- ===== src/Dockerutil/Quota/Line.antt =====
-- A line of numbers as ReadCPUQuota of xunix/sys.go reads it: trimmed, and in two fields.
use mathlib.Core.List.{reverse, reverse-append, reverse-reverse, reverse-cons}
use envbox.Prelude.{
  ℕ, ◌≡◌, ◌≢◌, refl, sym, ap, ◌∙◌, false, [], ◌∷◌, ◌++◌, append_assoc, append-nil, cons-ne-nil,
  Bytes, codes, same, trim_space, trim_left, ok, ℤ, pos, itoa, atoi-itoa, itoa-IsGraphic, IsGraphic,
  IsInt64, arith, Lacks, All, All-append, split-append, split_single, is_space,
}
use envbox.Xunix.Sys.{cgroup_v2, parse_cpu_max, two_fields, quota_field, atoi_of}

-- No white space.
abbrev IsInk : Bytes → Type 0
IsInk = All (λ c. is_space c ≡ false)

pub IsGraphic-IsInk : (s : Bytes) → IsGraphic s → IsInk s
IsGraphic-IsInk [] a = tt
IsGraphic-IsInk (c ∷ s) ((lo, hi), a) = (ground arith, IsGraphic-IsInk s a)

reverse-ne-nil : (s : Bytes) → s ≢ [] → reverse s ≢ []
reverse-ne-nil [] h = h
reverse-ne-nil (c ∷ s) h = rw (reverse-cons c s) (snoc-ne-nil (reverse s))
  where
    snoc-ne-nil : (t : Bytes) → t ++ c ∷ [] ≢ []
    snoc-ne-nil [] = cons-ne-nil c []
    snoc-ne-nil (d ∷ t) = cons-ne-nil d _

reverse-IsInk : (s : Bytes) → IsInk s → IsInk (reverse s)
reverse-IsInk [] a = tt
reverse-IsInk (c ∷ s) (h, a) =
    rw (reverse-cons c s) (All-append _ (reverse s) (c ∷ []) (reverse-IsInk s a) (h, tt))

trim_left_ink : (s t : Bytes) → s ≢ [] → IsInk s → trim_left (s ++ t) ≡ s ++ t
unfolding trim_left
trim_left_ink [] t h a = absurd (h refl)
trim_left_ink (c ∷ s) t h (ink, a) = rw ink

-- White space behind a text that begins and ends with ink is trimmed.
trim_space_ink :
    (a m b w : Bytes)
    → a ≢ []
    → IsInk a
    → b ≢ []
    → IsInk b
    → ((r : Bytes) → trim_left (reverse w ++ r) ≡ trim_left r)
    → trim_space (a ++ m ++ b ++ w) ≡ a ++ m ++ b
unfolding trim_space
trim_space_ink a m b w ha ia hb ib blank =
    let body = a ++ m ++ b in
    let body = a ++ m ++ b in
    let e : body ++ w ≡ a ++ (m ++ b ++ w) =
      ap (λ t. t ++ w) (append_assoc a m b) ∙ append_assoc a (m ++ b) w in
    let back : reverse body ≡ reverse b ++ (reverse m ++ reverse a) =
      reverse-append (a ++ m) b ∙ ap (λ t. reverse b ++ t) (reverse-append a m) in
    ap (λ t. reverse (trim_left (reverse t)))
      (ap trim_left e ∙ trim_left_ink a (m ++ b ++ w) ha ia ∙ sym e)
    ∙ ap (λ t. reverse (trim_left t)) (reverse-append body w)
    ∙ ap reverse (blank (reverse body) ∙ ap trim_left back)
    ∙ ap reverse (
        trim_left_ink (reverse b) (reverse m ++ reverse a) (reverse-ne-nil b hb)
          (reverse-IsInk b ib))
    ∙ ap reverse (sym back)
    ∙ reverse-reverse body

trim_left_ink_all : (s : Bytes) → s ≢ [] → IsInk s → trim_left s ≡ s
trim_left_ink_all s h a = ap trim_left (sym (append-nil s)) ∙ trim_left_ink s [] h a ∙ append-nil s

pub trim_space-itoa : (i : ℤ) → trim_space (itoa i) ≡ itoa i
unfolding trim_space
trim_space-itoa i =
    let (ne, graphic) = itoa-IsGraphic i in
    let ink = IsGraphic-IsInk (itoa i) graphic in
    ap (λ t. reverse (trim_left (reverse t))) (trim_left_ink_all (itoa i) ne ink)
    ∙ ap reverse (trim_left_ink_all (reverse (itoa i)) (reverse-ne-nil _ ne) (reverse-IsInk _ ink))
    ∙ reverse-reverse (itoa i)

pub IsGraphic-Lacks : (s : Bytes) → IsGraphic s → Lacks b' ' s
IsGraphic-Lacks [] a = tt
IsGraphic-Lacks (c ∷ s) ((lo, hi), a) = (omega arith, IsGraphic-Lacks s a)

same-graphic : (s : Bytes) → IsGraphic s → same s (codes "max") ≡ false
unfolding same
same-graphic [] a = refl
same-graphic (c ∷ s) ((lo, hi), a) = ground arith

-- A line of two fields.
pub parse_line :
    (q : Bytes) (quota period : ℤ)
    → q ≢ []
    → IsInk q
    → Lacks b' ' q
    → quota_field q ≡ ok quota
    → IsInt64 period
    → parse_cpu_max (q ++ codes " " ++ itoa period ++ codes "\n")
      ≡ ok (record { quota = quota; period = period; cgroup = cgroup_v2 })
unfolding parse_cpu_max atoi_of trim_left two_fields
parse_line q quota period ne ink lacks read_q fits =
    let (pne, graphic) = itoa-IsGraphic period in
    rw
      (
        trim_space_ink q (codes " ") (itoa period) (codes "\n") ne ink pne
            (IsGraphic-IsInk (itoa period) graphic) (λ r. refl),
        append_assoc q (codes " ") (itoa period),
        split-append q b' ' (itoa period) lacks,
        split_single (itoa period) b' ' (IsGraphic-Lacks (itoa period) graphic),
        read_q,
        atoi-itoa period fits,
      )
      refl

pub quota_field-itoa : (n : ℕ) → IsInt64 (pos n) → quota_field (itoa (pos n)) ≡ ok (pos n)
unfolding quota_field atoi_of
quota_field-itoa n fits =
    rw (same-graphic (itoa (pos n)) (itoa-IsGraphic (pos n)).1, atoi-itoa (pos n) fits) refl
