-- ===== src/Prelude/Steps.antt =====
-- Runs of calls that change what is outside of the program, with results that may be errors: the calls
-- made so far are the state, and what a call answers depends on those before it.
use mathlib.Core.List.{List, [], ◌∷◌, ◌++◌, map}
use mathlib.Core.Option.{Option, none, some}
use envbox.Prelude.Text.{Bytes}
use envbox.Prelude.Errors.{Error, wrap}
use envbox.Prelude.Fallible.{Result, ok, err, context}

-- A result, and the calls made so far.
abbrev pub Step {ℓ} : Type 0 → Type ℓ → Type ℓ
Step Call A = List Call → Result A × List Call

-- The value of a function that returns an error only.
pub data Nil : Type 0 where
  nil : Nil

-- One step of a run behind another, unless that failed.
unfoldable pub after {ℓ κ} :
    {Call : Type 0} {A : Type ℓ} {B : Type κ}
    → Result A × List Call
    → (A → Step Call B)
    → Result B × List Call
after (ok a, t) f = f a t
after (err e, t) f = (err e, t)

infixl 5 ◌>>=◌
abbrev pub ◌>>=◌ {ℓ κ} :
    {Call : Type 0} {A : Type ℓ} {B : Type κ} → Step Call A → (A → Step Call B) → Step Call B
(r >>= f) t = after (r t) f

abbrev pub return {ℓ} : {Call : Type 0} {A : Type ℓ} → A → Step Call A
return a t = (ok a, t)

-- A result that takes no call.
abbrev pub given {ℓ} : {Call : Type 0} {A : Type ℓ} → Result A → Step Call A
given r t = (r, t)

-- The error of a run wrapped by its caller.
abbrev pub within {ℓ} : {Call : Type 0} {A : Type ℓ} → Bytes → Step Call A → Step Call A
within what r t = (context what (r t).0, (r t).1)

unfoldable pub answered : Bytes → Option Error → Result Nil
answered what none = ok nil
answered what (some e) = err (wrap what e)

-- A call with an error or none, and what the error is wrapped in.
unfoldable pub call : {Call : Type 0} → Bytes → Call → (List Call → Option Error) → Step Call Nil
unfolding answered
call what c answer t = (answered what (answer t), t ++ c ∷ [])

-- A call with a result.
unfoldable pub ask {ℓ} :
    {Call : Type 0} {A : Type ℓ} → Bytes → Call → (List Call → Result A) → Step Call A
ask what c answer t = (context what (answer t), t ++ c ∷ [])

-- A run of calls of another kind, which are calls of this one.
unfoldable pub embed {ℓ} :
    {Call Effect : Type 0} {A : Type ℓ}
    → (Effect → Call)
    → (List Call → Step Effect A)
    → Step Call A
embed made run t = let r = run t [] in (r.0, t ++ map made r.1)
