-- ===== src/Buildlog/Cut.antt =====
-- `cutString` of buildlog/coder.go.
use envbox.Prelude.{
  ℕ, zero, suc, ◌≤◌, ◌<◌, ◌≡◌, ap, ◌∙◌, true, false, List, [], ◌∷◌, ◌++◌, Option, none, some, Bytes,
  leb, ltb, take, drop, length, length-drop, length-take, take-append-drop, append-nil,
  append_assoc, if◌then◌else◌, arith, dec_le,
}

-- The loop, with `none` where it needs more rounds than the fuel.
unfoldable pub cut_loop : ℕ → Bytes → ℕ → List Bytes → Option (List Bytes)
cut_loop zero s max_size toks = none
cut_loop (suc fuel) s max_size toks = elim (ltb max_size (length s)) [
  | true ↦ cut_loop fuel (drop max_size s) max_size (toks ++ take max_size s ∷ [])
  | false ↦ some (toks ++ s ∷ [])
]

unfoldable pub cut_string : ℕ → Bytes → ℕ → Option (List Bytes)
unfolding cut_loop
cut_string fuel s max_size =
    if leb (length s) max_size then some (s ∷ []) else cut_loop fuel s max_size []

-- The parts in a row.
abbrev pub concat : List Bytes → Bytes
concat [] = []
concat (p ∷ ps) = p ++ concat ps

-- All parts but the last have the size, and the last has that size at most.
abbrev pub IsCut : ℕ → List Bytes → Type 0
IsCut max_size [] = ⊥
IsCut max_size (p ∷ []) = length p ≤ max_size
IsCut max_size (p ∷ q ∷ ps) = (length p ≡ max_size) × IsCut max_size (q ∷ ps)

module _ (fuel : ℕ) (s : Bytes) (max_size : ℕ) (toks : List Bytes) where
  round_last : length s ≤ max_size → cut_loop (suc fuel) s max_size toks ≡ some (toks ++ s ∷ [])
  unfolding cut_loop
  round_last h = ground arith

  round_more :
      max_size < length s
      → cut_loop (suc fuel) s max_size toks
        ≡ cut_loop fuel (drop max_size s) max_size (toks ++ take max_size s ∷ [])
  unfolding cut_loop
  round_more h = ground arith

IsCut-cons :
    (max_size : ℕ) (p : Bytes) (ps : List Bytes)
    → length p ≡ max_size
    → IsCut max_size ps
    → IsCut max_size (p ∷ ps)
IsCut-cons max_size p [] h c = absurd c
IsCut-cons max_size p (q ∷ ps) h c = (h, c)

-- What the loop returns, from the parts so far.
abbrev Cut : ℕ → Bytes → ℕ → List Bytes → Type 0
Cut fuel s max_size toks =
    (ps : List Bytes) × (cut_loop fuel s max_size toks ≡ some (toks ++ ps))
    × (concat ps ≡ s)
    × IsCut max_size ps

cut_loop_lem :
    (fuel : ℕ) (s : Bytes) (max_size : ℕ) (toks : List Bytes)
    → 0 < max_size
    → length s < fuel
    → Cut fuel s max_size toks
cut_loop_lem zero s max_size toks pos h = absurd (omega arith)
cut_loop_lem (suc fuel) s max_size toks pos h = elim (dec_le (length s) max_size) [
  | yes le ↦ (s ∷ [], round_last fuel s max_size toks le, append-nil s, le)
  | no gt ↦
      let (ps, e, whole, cut) =
        cut_loop_lem fuel (drop max_size s) max_size (toks ++ take max_size s ∷ []) pos
          (omega (arith, length-drop max_size s)) in
      (
        take max_size s ∷ ps,
        round_more fuel s max_size toks (omega arith)
            ∙ e
            ∙ ap some (append_assoc toks (take max_size s ∷ []) ps),
        ap (λ t. take max_size s ++ t) whole ∙ take-append-drop max_size s,
        IsCut-cons max_size (take max_size s) ps (omega (arith, length-take max_size s)) cut,
      )
]

-- For a size above zero, `cutString` returns, in at most as many rounds as the text has bytes and one.
-- Its parts in a row are the text; all have the size, but the last, which has that size at most.
pub cut_string_lem :
    (fuel : ℕ) (s : Bytes) (max_size : ℕ)
    → 0 < max_size
    → length s < fuel
    → (ps : List Bytes) × (cut_string fuel s max_size ≡ some ps)
      × (concat ps ≡ s)
      × IsCut max_size ps
unfolding cut_string
cut_string_lem fuel s max_size pos h = elim (dec_le (length s) max_size) [
  | yes le ↦ (s ∷ [], ground arith, append-nil s, le)
  | no gt ↦
      let (ps, e, whole, cut) = cut_loop_lem fuel s max_size [] pos h in
      (ps, (let f : leb (length s) max_size ≡ false = ground arith in rw f e), whole, cut)
]
