-- ===== src/Xunix/Effect/Makes.antt =====
-- Which calls a run makes.
use mathlib.Core.Path.{subst, ap₂}
use envbox.Prelude.{
  ◌≡◌, ◌⊎◌, refl, sym, ap, ◌∙◌, List, [], ◌∷◌, ◌++◌, none, some, Option-cases, Bytes, Error, wrap,
  ok, err, append_assoc, append-nil, inl, inr, context,
}
use envbox.Xunix.Effect.{Effect, Answer, Run, nil, ◌>>=◌, after, return, within, perform, answered}

module _ (answer : Answer) where
  -- The calls of a list up to the first that fails, which is made too.
  abbrev pub made : List Effect → List Effect → List Effect
  made t [] = []
  made t (e ∷ es) =
      let rest = made (t ++ e ∷ []) es in
      elim (answer t e) [ some error ↦ e ∷ [] | none ↦ e ∷ rest ]

  -- None of the calls of a list fails.
  abbrev pub Fine : List Effect → List Effect → Type 0
  Fine t [] = Unit
  Fine t (e ∷ es) = (answer t e ≡ none) × Fine (t ++ e ∷ []) es

  -- Behind the calls so far, the calls of the list are made up to the first that fails. The result is
  -- this value if none fails, and an error otherwise.
  abbrev pub Outcome {ℓ} : {A : Type ℓ} → Run A → List Effect → A → List Effect → Type ℓ
  Outcome r es a t =
      (Fine t es × (r t ≡ (ok a, t ++ es)))
      ⊎ ((Fine t es → ⊥) × ((e : Error) × (r t ≡ (err e, t ++ made t es))))

  pub record Makes {ℓ} {A : Type ℓ} (r : Run A) (es : List Effect) (a : A) : Type ℓ where
    pub outcome : (t : List Effect) → Outcome r es a t

  made-append-Fine :
      (t es es' : List Effect) → Fine t es → made t (es ++ es') ≡ es ++ made (t ++ es) es'
  made-append-Fine t [] es' _ = ap (λ u. made u es') (sym (append-nil t))
  made-append-Fine t (e ∷ es) es' (fine, rest) =
      rw (made, fine)
        (ap (λ l. e ∷ l)
          (made-append-Fine (t ++ e ∷ []) es es' rest
            ∙ ap (λ u. es ++ made u es') (append_assoc t (e ∷ []) es)))

  made-append_failed : (t es es' : List Effect) → (Fine t es → ⊥) → made t (es ++ es') ≡ made t es
  made-append_failed t [] es' failed = absurd (failed tt)
  made-append_failed t (e ∷ es) es' failed = elim (Option-cases (answer t e)) [
    | inl fine ↦
        rw (made, fine)
          (ap (λ l. e ∷ l) (made-append_failed (t ++ e ∷ []) es es' (λ rest. failed (fine, rest))))
    | inr (error, refused) ↦ rw (made, refused) refl
  ]

  Fine-append :
      (t es es' : List Effect)
      → (Fine t (es ++ es') → Fine t es × Fine (t ++ es) es')
        × (Fine t es → Fine (t ++ es) es' → Fine t (es ++ es'))
  Fine-append t [] es' = (
    λ f. (tt, subst (λ u. Fine u es') (sym (append-nil t)) f),
    λ _ f. subst (λ u. Fine u es') (append-nil t) f,
  )
  Fine-append t (e ∷ es) es' =
      let (to, from) = Fine-append (t ++ e ∷ []) es es' in
      let assoc = append_assoc t (e ∷ []) es in
      (
        λ f. let (here, there) = to f.1 in ((f.0, here), subst (λ u. Fine u es') assoc there),
        λ f g. (f.0, from f.1 (subst (λ u. Fine u es') (sym assoc) g)),
      )

  refused_fine :
      {e : Effect} {t : List Effect} (error : Error)
      → answer t e ≡ some error
      → answer t e ≡ none
      → ⊥
  refused_fine error refused fine = cc

  one_made :
      (e : Effect) (t : List Effect) (error : Error)
      → answer t e ≡ some error
      → made t (e ∷ []) ≡ e ∷ []
  one_made e t error refused = rw (made, refused) refl

  perform-Outcome :
      (e : Effect) (what : Bytes) (t : List Effect) → Outcome (perform answer e what) (e ∷ []) nil t
  unfolding perform answered
  perform-Outcome e what t = elim (Option-cases (answer t e)) [
    | inl fine ↦ inl ((fine, tt), rw fine refl)
    | inr (error, refused) ↦ inr (
      λ f. refused_fine error refused f.0,
      (
        wrap what error,
        ap₂ (λ x l. (x, t ++ l)) (rw refused refl) (sym (one_made e t error refused)),
      ),
    )
  ]

  bind-Outcome {ℓ κ} :
      {A : Type ℓ} {B : Type κ} (r : Run A) (f : A → Run B) (es es' : List Effect) (a : A) (b : B)
      (t : List Effect)
      → Outcome r es a t
      → Outcome (f a) es' b (t ++ es)
      → Outcome (r >>= f) (es ++ es') b t
  unfolding after
  bind-Outcome r f es es' a b t (inr (failed, (e, stop))) next = inr (
    λ fine. failed ((Fine-append t es es').0 fine).0,
    (
      e,
      ap (λ x. after x f) stop
          ∙ ap (λ l. (err e, t ++ l)) (sym (made-append_failed t es es' failed)),
    ),
  )
  bind-Outcome r f es es' a b t (inl (fine, go)) (inl (fine', go')) = inl (
    (Fine-append t es es').1 fine fine',
    ap (λ x. after x f) go ∙ go' ∙ ap (λ u. (ok b, u)) (append_assoc t es es'),
  )
  bind-Outcome r f es es' a b t (inl (fine, go)) (inr (failed, (e, stop))) = inr (
    λ f'. failed ((Fine-append t es es').0 f').1,
    (
      e,
      ap (λ x. after x f) go
          ∙ stop
          ∙ ap (λ u. (err e, u))
              (append_assoc t es (made (t ++ es) es')
                ∙ ap (λ l. t ++ l) (sym (made-append-Fine t es es' fine))),
    ),
  )

  within-Outcome {ℓ} :
      {A : Type ℓ} (what : Bytes) (r : Run A) (es : List Effect) (a : A) (t : List Effect)
      → Outcome r es a t
      → Outcome (within what r) es a t
  within-Outcome what r es a t (inl (fine, go)) = inl (fine, ap (λ x. (context what x.0, x.1)) go)
  within-Outcome what r es a t (inr (failed, (e, stop))) =
      inr (failed, (wrap what e, ap (λ x. (context what x.0, x.1)) stop))

  pub Makes-perform : (e : Effect) (what : Bytes) → Makes (perform answer e what) (e ∷ []) nil
  Makes-perform e what = record { outcome = perform-Outcome e what }

  pub Makes-return {ℓ} : {A : Type ℓ} (a : A) → Makes (return a) [] a
  Makes-return a = record { outcome = λ t. inl (tt, ap (λ u. (ok a, u)) (sym (append-nil t))) }

  pub Makes-bind {ℓ κ} :
      {A : Type ℓ} {B : Type κ} {r : Run A} (f : A → Run B) {es es' : List Effect} {a : A} {b : B}
      → Makes r es a
      → Makes (f a) es' b
      → Makes (r >>= f) (es ++ es') b
  Makes-bind {r = r} f {es} {es'} {a} {b} m n = record {
    outcome = λ t. bind-Outcome r f es es' a b t (m.outcome t) (n.outcome (t ++ es));
  }

  pub Makes-within {ℓ} :
      {A : Type ℓ} (what : Bytes) {r : Run A} {es : List Effect} {a : A}
      → Makes r es a
      → Makes (within what r) es a
  Makes-within what {r} {es} {a} m = record {
    outcome = λ t. within-Outcome what r es a t (m.outcome t);
  }
