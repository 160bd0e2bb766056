-- ===== src/Cli/Gives.antt =====
-- What a run of calls gives where it ends without an error.
use mathlib.Core.Path.{subst}
use envbox.Prelude.{
  ◌≡◌, refl, sym, ap, ◌∙◌, List, [], ◌∷◌, ◌++◌, append_assoc, append-nil, map, Option, Bytes, Error,
  Result, ok, err, inl, inr, context,
}
use envbox.Prelude.Steps.{Nil, Step, after, ◌>>=◌, return, given, call, ask, embed, answered}
use envbox.Xunix.Effect.{Effect, Answer, Run}
use envbox.Xunix.Effect.Makes.{Makes, Outcome}

ok_inj : {A : Type 0} (a b : A) → ◌≡◌ {A = Result A} (ok a) (ok b) → a ≡ b
ok_inj a b e = cc

pub context_ok :
    {A : Type 0} (what : Bytes) (r : Result A) (a : A) → context what r ≡ ok a → r ≡ ok a
context_ok what (ok b) a e = e
context_ok what (err x) a e = absurd (cc e)

module _ {Call : Type 0} where
  -- Where the run ends with a value, this holds of the value and the calls that the run added.
  pub record Gives {A : Type 0} (r : Step Call A) (P : A → List Call → Type 0) : Type 0 where
    pub gives :
        (t t' : List Call) (a : A) → r t ≡ (ok a, t') → (cs : List Call) × (t' ≡ t ++ cs) × P a cs

  pub Gives-return : {A : Type 0} (a : A) (P : A → List Call → Type 0) → P a [] → Gives (return a) P
  Gives-return a P h = record {
    gives = λ t t' b e. (
      [],
      sym (ap (λ p. p.1) e) ∙ sym (append-nil t),
      subst (λ x. P x []) (ok_inj a b (ap (λ p. p.0) e)) h,
    );
  }

  module _ {A B : Type 0} (f : A → Step Call B) (Q : B → List Call → Type 0) where
    behind :
        (result : Result A × List Call) (t t' : List Call) (b : B)
        → ((a : A) (u : List Call)
            → result ≡ (ok a, u)
            → (cs : List Call) × (u ≡ t ++ cs) × Gives (f a) (λ c ds. Q c (cs ++ ds)))
        → after result f ≡ (ok b, t')
        → (cs : List Call) × (t' ≡ t ++ cs) × Q b cs
    unfolding after
    behind (ok a, u) t t' b first e =
        let (cs, grown, rest) = first a u refl in
        let (ds, grown', q) = rest.gives u t' b e in
        (cs ++ ds, grown' ∙ ap (λ l. l ++ ds) grown ∙ append_assoc t cs ds, q)
    behind (err x, u) t t' b first e = absurd (cc (ap (λ p. p.0) e))

    -- A run behind another.
    pub bind_gives :
        (P : A → List Call → Type 0) (r : Step Call A)
        → Gives r P
        → ((a : A) (cs : List Call) → P a cs → Gives (f a) (λ b ds. Q b (cs ++ ds)))
        → Gives (r >>= f) Q
    bind_gives P r first rest = record {
      gives = λ t t' b e.
          behind (r t) t t' b
            (λ a u e'. let (cs, grown, p) = first.gives t u a e' in (cs, grown, rest a cs p)) e;
    }

    pub given_gives :
        (r : Result A) → ((a : A) → r ≡ ok a → Gives (f a) Q) → Gives (given r >>= f) Q
    given_gives r rest = record {
      gives = λ t t' b e.
          behind (r, t) t t' b
            (λ a u e'. ([], sym (ap (λ p. p.1) e') ∙ sym (append-nil t), rest a (ap (λ p. p.0) e')))
            e;
    }

    pub ask_gives :
        (what : Bytes) (c : Call) (answer : List Call → Result A)
        → ((a : A) (u : List Call) → answer u ≡ ok a → Gives (f a) (λ b ds. Q b (c ∷ ds)))
        → Gives (ask what c answer >>= f) Q
    unfolding ask
    ask_gives what c answer rest = record {
      gives = λ t t' b e.
          behind (context what (answer t), t ++ c ∷ []) t t' b
            (λ a u e'. (
              c ∷ [],
              sym (ap (λ p. p.1) e'),
              rest a t (context_ok what (answer t) a (ap (λ p. p.0) e')),
            ))
            e;
    }

  pub call_gives :
      {B : Type 0} (f : Nil → Step Call B) (Q : B → List Call → Type 0) (what : Bytes) (c : Call)
      (answer : List Call → Option Error)
      → ((a : Nil) → Gives (f a) (λ b ds. Q b (c ∷ ds)))
      → Gives (call what c answer >>= f) Q
  unfolding call
  call_gives f Q what c answer rest = record {
    gives = λ t t' b e.
        behind f Q (answered what (answer t), t ++ c ∷ []) t t' b
          (λ a u e'. (c ∷ [], sym (ap (λ p. p.1) e'), rest a)) e;
  }

  embedded :
      {A : Type 0} (made : Effect → Call) (answer : Answer) (r : Run A) (es : List Effect) (a b : A)
      (t t' : List Call)
      → Outcome answer r es a []
      → embed made (λ u. r) t ≡ (ok b, t')
      → (cs : List Call) × (t' ≡ t ++ cs) × ((b ≡ a) × (cs ≡ map made es))
  unfolding embed
  embedded made answer r es a b t t' (inl (fine, go)) e =
      let same_value = sym (ap (λ p. p.0) e) ∙ ap (λ p. p.0) go in
      (
        map made es,
        sym (ap (λ p. p.1) e) ∙ ap (λ p. t ++ map made p.1) go,
        (ok_inj b a same_value, refl),
      )
  embedded made answer r es a b t t' (inr (failed, (x, stop))) e =
      absurd (cc (sym (ap (λ p. p.0) e) ∙ ap (λ p. p.0) stop))

  -- A run of effects that makes these, where it ends with a value, and has this value.
  pub Gives-embed :
      {A : Type 0} (made : Effect → Call) (answer : List Call → Answer) (run : List Call → Run A)
      (es : List Effect) (a : A)
      → ((t : List Call) → Makes (answer t) (run t) es a)
      → Gives (embed made run) (λ b cs. (b ≡ a) × (cs ≡ map made es))
  unfolding embed
  Gives-embed made answer run es a makes = record {
    gives = λ t t' b e. embedded made (answer t) (run t) es a b t t' ((makes t).outcome []) e;
  }

  pub Gives-weaken :
      {A : Type 0} (P Q : A → List Call → Type 0) (r : Step Call A)
      → Gives r P
      → ((a : A) (cs : List Call) → P a cs → Q a cs)
      → Gives r Q
  Gives-weaken P Q r g keep = record {
    gives = λ t t' a e. let (cs, grown, p) = g.gives t t' a e in (cs, grown, keep a cs p);
  }

  pub Gives-call :
      (what : Bytes) (c : Call) (answer : List Call → Option Error)
      → Gives (call what c answer) (λ a cs. cs ≡ c ∷ [])
  unfolding call
  Gives-call what c answer = record { gives = λ t t' a e. (c ∷ [], sym (ap (λ p. p.1) e), refl) }

  pub Gives-err : {A : Type 0} (e : Error) (P : A → List Call → Type 0) → Gives (given (err e)) P
  Gives-err e P = record { gives = λ t t' a h. absurd (cc (ap (λ p. p.0) h)) }

  -- A run that gives nothing ends with an error.
  pub fails :
      {A : Type 0} (r : Step Call A) (t : List Call)
      → Gives r (λ a cs. ⊥)
      → (e : Error) × ((r t).0 ≡ err e)
  fails {A} r t g = by_result (r t) refl
    where
      by_result : (p : Result A × List Call) → r t ≡ p → (e : Error) × (p.0 ≡ err e)
      by_result (err e, u) h = (e, refl)
      by_result (ok a, u) h = absurd (g.gives t u a h).2
