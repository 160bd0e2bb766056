-- ===== src/Prelude/Sort.antt =====
-- Go's `sort.Slice`: what it documents, and insertion sort, which keeps to it.
use mathlib.Core.Path.{◌≡◌, refl, subst}
use mathlib.Core.Logic.{inl, inr}
use mathlib.Core.Bool.{Bool, true, false}
use mathlib.Core.List.{List, [], ◌∷◌, Permᴰ}
use mathlib.Core.List.Permᴰ
use envbox.Prelude.Tests.{Bool-cases, if◌then◌else◌}
use envbox.Prelude.Lists.{All, select, select_keep, select_skip}

module _ {A : Type 0} where
  -- A strict weak order, which `sort.Slice` asks of its function.
  pub record IsWeakOrder (less : A → A → Bool) : Type 0 where
    pub asym : (a b : A) → less a b ≡ true → less b a ≡ false
    pub trans : (a b c : A) → less a b ≡ false → less b c ≡ false → less a c ≡ false

  -- No element is less than one before it.
  abbrev pub Ordered : (A → A → Bool) → List A → Type 0
  Ordered less [] = Unit
  Ordered less (a ∷ l) = All (λ b. less b a ≡ false) l × Ordered less l

  -- What is documented: the same elements, in order. Equal elements may change places.
  pub record IsSort (sort : (A → A → Bool) → List A → List A) : Type 0 where
    pub perm : (less : A → A → Bool) (l : List A) → Permᴰ (sort less l) l
    pub ordered : (less : A → A → Bool) (l : List A) → IsWeakOrder less → Ordered less (sort less l)

  module _ (p : A → Bool) where
    select-cons :
        (a : A) (k l : List A)
        → Permᴰ (select p k) (select p l)
        → Permᴰ (select p (a ∷ k)) (select p (a ∷ l))
    select-cons a k l perm = elim (Bool-cases (p a)) [
      | inl t ↦ rw (select_keep p a k t, select_keep p a l t) (Permᴰ.cons refl perm)
      | inr f ↦ rw (select_skip p a k f, select_skip p a l f) perm
    ]

    select-swap : (a b : A) (l : List A) → Permᴰ (select p (a ∷ b ∷ l)) (select p (b ∷ a ∷ l))
    select-swap a b l = elim (Bool-cases (p a)) [
      | inl t ↦ elim (Bool-cases (p b)) [
        | inl u ↦ rw (select, t, u, t) (Permᴰ.swap refl refl)
        | inr v ↦ rw (select, t, v, t) (Permᴰ.refl _)
      ]
      | inr f ↦ elim (Bool-cases (p b)) [
        | inl u ↦ rw (select, f, u, f) (Permᴰ.refl _)
        | inr v ↦ rw (select, f, v, f) (Permᴰ.refl _)
      ]
    ]

    -- The elements that pass a test are a permutation where the lists are.
    pub select-Perm : (k l : List A) → Permᴰ k l → Permᴰ (select p k) (select p l)
    select-Perm _ _ Permᴰ.nil = Permᴰ.nil
    select-Perm _ _ (Permᴰ.cons {a} {b} {l₁} {l₂} e perm) =
        subst (λ x. Permᴰ (select p (a ∷ l₁)) (select p (x ∷ l₂))) e
          (select-cons a l₁ l₂ (select-Perm l₁ l₂ perm))
    select-Perm _ _ (Permᴰ.swap {a} {b} {a'} {b'} {l} e e') =
        subst (λ x. Permᴰ (select p (a ∷ b ∷ l)) (select p (a' ∷ x ∷ l))) e
          (subst (λ x. Permᴰ (select p (a ∷ b ∷ l)) (select p (x ∷ a ∷ l))) e' (select-swap a b l))
    select-Perm k l (Permᴰ.trans {l₁} {l₂} {l₃} perm perm') =
        Permᴰ.trans (select-Perm l₁ l₂ perm) (select-Perm l₂ l₃ perm')

  abbrev pub insert_by : (A → A → Bool) → A → List A → List A
  insert_by less a [] = a ∷ []
  insert_by less a (b ∷ l) =
      let rest = insert_by less a l in if less b a then b ∷ rest else a ∷ b ∷ l

  abbrev pub sort_by : (A → A → Bool) → List A → List A
  sort_by less [] = []
  sort_by less (a ∷ l) = insert_by less a (sort_by less l)

  module _ (less : A → A → Bool) where
    insert_by-Perm : (a : A) (l : List A) → Permᴰ (insert_by less a l) (a ∷ l)
    insert_by-Perm a [] = Permᴰ.refl _
    insert_by-Perm a (b ∷ l) = elim (Bool-cases (less b a)) [
      | inl before ↦
          rw (insert_by, before)
            (Permᴰ.trans (Permᴰ.cons refl (insert_by-Perm a l)) (Permᴰ.swap refl refl))
      | inr behind ↦ rw (insert_by, behind) (Permᴰ.refl _)
    ]

    sort_by-Perm : (l : List A) → Permᴰ (sort_by less l) l
    sort_by-Perm [] = Permᴰ.nil
    sort_by-Perm (a ∷ l) =
        Permᴰ.trans (insert_by-Perm a (sort_by less l)) (Permᴰ.cons refl (sort_by-Perm l))

    insert_by-All :
        (P : A → Type 0) (a : A) (l : List A) → P a → All P l → All P (insert_by less a l)
    insert_by-All P a [] h all = (h, tt)
    insert_by-All P a (b ∷ l) h (hb, all) = elim (Bool-cases (less b a)) [
      | inl before ↦ rw (insert_by, before) (hb, insert_by-All P a l h all)
      | inr behind ↦ rw (insert_by, behind) (h, (hb, all))
    ]

    not_less_behind :
        IsWeakOrder less
        → (a b : A) (l : List A) → less b a ≡ false
        → All (λ c. less c b ≡ false) l
        → All (λ c. less c a ≡ false) l
    not_less_behind weak a b [] h all = tt
    not_less_behind weak a b (c ∷ l) h (hc, all) =
        (weak.trans c b a hc h, not_less_behind weak a b l h all)

    insert_by-Ordered :
        IsWeakOrder less → (a : A) (l : List A) → Ordered less l → Ordered less (insert_by less a l)
    insert_by-Ordered weak a [] ord = (tt, tt)
    insert_by-Ordered weak a (b ∷ l) (below, ord) = elim (Bool-cases (less b a)) [
      | inl before ↦
          rw (insert_by, before)
            (
              insert_by-All (λ c. less c b ≡ false) a l (weak.asym b a before) below,
              insert_by-Ordered weak a l ord,
            )
      | inr behind ↦
          rw (insert_by, behind) ((behind, not_less_behind weak a b l behind below), (below, ord))
    ]

    sort_by-Ordered : (l : List A) → IsWeakOrder less → Ordered less (sort_by less l)
    sort_by-Ordered [] weak = tt
    sort_by-Ordered (a ∷ l) weak =
        insert_by-Ordered weak a (sort_by less l) (sort_by-Ordered l weak)

  pub sort_by-IsSort : IsSort sort_by
  sort_by-IsSort = record { perm = sort_by-Perm; ordered = sort_by-Ordered }
