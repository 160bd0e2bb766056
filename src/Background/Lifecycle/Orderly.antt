-- ===== src/Background/Lifecycle/Orderly.antt =====
-- What holds of the channels of a process in background/process.go that is restarted only behind the end
-- of its command's goroutine.
use mathlib.Core.Path.{subst}
use envbox.Prelude.{
  ℕ, zero, suc, ◌≡◌, refl, sym, ap, ◌∙◌, true, false, List, [], ◌∷◌, Option, none, some, Bytes,
  Error, All, inl, inr, Bool-cases,
}
use envbox.Background.Lifecycle.{
  Chan, make_chan, receive, Exit, Worker, idle, waiting, exited, picked, sent, ended, Life, Process,
  new_process, Event, starts, exits, loads, sends, closes, takes, signals, swaps, launch, reap,
  pick, mark_sent, leave, with_worker, closed_life, took, on_past, on_life, post, sent_life,
  sent_past, send, step, is_started,
}
use envbox.Background.Lifecycle.Stages.{
  Stage, IsEnded, IsOrderly, IsPast, OnSome, OnSome-some, launch-Stage, reap-Stage, pick-Stage,
  leave-Stage, killed-Stage, receive-Stage, IsEnded-form,
}

-- The current life is in order, those before it are too and have ended, and nothing panicked.
pub record Inv (p : Process) : Type 0 where
  pub current : IsOrderly p.current
  pub past : All IsPast p.past
  pub calm : p.panicked ≡ false

-- A restart waits for the goroutine of the command that it replaces.
abbrev pub Awaits : Event → Process → Type 0
Awaits (swaps name) p = IsEnded p.current.worker
Awaits _ p = Unit

-- Runs in which every restart waits.
pub data Awaited (p : Process) : Process → Type 0 where
  here : Awaited p p
  next : {q r : Process} (e : Event) → Awaited p q → Awaits e q → step e q ≡ some r → Awaited p r

-- What a function that may not apply makes of a life, or of lives.
module _ {A B : Type 0} (P : A → Type 0) (Q : B → Type 0) (f : A → B) where
  OnSome-map :
      ((a : A) → P a → Q (f a))
      → (o : Option A) → OnSome P o
      → OnSome Q (elim o as (λ _. Option B) [ none ↦ none | some a ↦ some (f a) ])
  OnSome-map keep none h = tt
  OnSome-map keep (some a) h = keep a h

on_past-All :
    (n : ℕ) (f : Life → Option Life) (ls : List Life)
    → ((l : Life) → IsPast l → OnSome IsPast (f l))
    → All IsPast ls
    → OnSome (All IsPast) (on_past n f ls)
unfolding on_past
on_past-All n f [] keep a = tt
on_past-All zero f (l ∷ ls) keep (h, a) =
    OnSome-map IsPast (All IsPast) (λ l'. l' ∷ ls) (λ l' h'. (h', a)) (f l) (keep l h)
on_past-All (suc n) f (l ∷ ls) keep (h, a) =
    OnSome-map (All IsPast) (All IsPast) (λ ls'. l ∷ ls') (λ ls' a'. (h, a')) (on_past n f ls)
      (on_past-All n f ls keep a)

on_life-Inv :
    (n : ℕ) (f : Life → Option Life) (p : Process)
    → ((l : Life) → IsOrderly l → OnSome IsOrderly (f l))
    → ((l : Life) → IsPast l → OnSome IsPast (f l))
    → Inv p
    → OnSome Inv (on_life n f p)
unfolding on_life
on_life-Inv zero f p keep keep_past inv =
    OnSome-map IsOrderly Inv (λ l. record p { current = l })
      (λ l h. record { current = h; past = inv.past; calm = inv.calm }) (f p.current)
      (keep p.current inv.current)
on_life-Inv (suc n) f p keep keep_past inv =
    OnSome-map (All IsPast) Inv (λ ls. record p { past = ls })
      (λ ls a. record { current = inv.current; past = a; calm = inv.calm }) (on_past n f p.past)
      (on_past-All n f p.past keep_past inv.past)

-- Steps of a goroutine, and a receive, on a life in order.
module _ (f : Life → Worker → Option Worker)
    (keep : (l : Life) (w : Worker)
      → Stage l.user_killed l.wait_ch w
      → OnSome (Stage l.user_killed l.wait_ch) (f l w)) where
  worker-IsOrderly : (l : Life) → IsOrderly l → OnSome IsOrderly (with_worker l (f l l.worker))
  worker-IsOrderly l h = by_result (f l l.worker) (keep l l.worker h)
    where
      by_result :
          (o : Option Worker)
          → OnSome (Stage l.user_killed l.wait_ch) o
          → OnSome IsOrderly (with_worker l o)
      by_result none _ = unfold with_worker in tt
      by_result (some w) h' = unfold with_worker in h'

-- A goroutine that has ended takes no step.
no_step :
    (l : Life) (f : Worker → Option Worker)
    → ((x : Exit) (v : Option Error) → f (ended x v) ≡ none)
    → IsPast l
    → OnSome IsPast (with_worker l (f l.worker))
no_step l f stuck (_, over) =
    let (x, v, e) = IsEnded-form l.worker over in
    let none_left : f l.worker ≡ none = ap f e ∙ stuck x v in
    subst (λ o. OnSome IsPast (with_worker l o)) (sym none_left) (unfold with_worker in tt)

closed-IsOrderly : (l : Life) → IsOrderly l → OnSome IsOrderly (closed_life l)
unfolding closed_life
closed-IsOrderly l h = by_result (leave l.worker) (leave-Stage l.user_killed l.wait_ch l.worker h)
  where
    by_result :
        (o : Option Worker)
        → OnSome (Stage l.user_killed (record l.wait_ch { closed = true })) o
        → OnSome IsOrderly (
            with_worker
              (record l { wait_ch = record l.wait_ch { closed = true }; cancelled = true })
              o)
    by_result none _ = unfold with_worker in tt
    by_result (some w) h' = unfold with_worker in h'

closed-IsPast : (l : Life) → IsPast l → OnSome IsPast (closed_life l)
unfolding closed_life leave with_worker
closed-IsPast l (_, over) =
    let (x, v, e) = IsEnded-form l.worker over in
    let none_left : leave l.worker ≡ none = ap leave e in
    subst
      (λ o. OnSome IsPast (
        with_worker (record l { wait_ch = record l.wait_ch { closed = true }; cancelled = true })
          o))
      (sym none_left) tt

took-IsOrderly : (l : Life) → IsOrderly l → OnSome IsOrderly (took l (receive l.wait_ch))
took-IsOrderly l h =
    by_result (receive l.wait_ch) (receive-Stage l.user_killed l.wait_ch l.worker h)
  where
    by_result :
        (o : Option (Option Error × Chan))
        → OnSome (λ r. Stage l.user_killed r.1 l.worker) o
        → OnSome IsOrderly (took l o)
    by_result none _ = unfold took in tt
    by_result (some (v, ch)) h' = unfold took in h'

took-IsPast : (l : Life) → IsPast l → OnSome IsPast (took l (receive l.wait_ch))
took-IsPast l (h, over) = by_result (receive l.wait_ch) (took-IsOrderly l h)
  where
    by_result :
        (o : Option (Option Error × Chan)) → OnSome IsOrderly (took l o) → OnSome IsPast (took l o)
    by_result none _ = unfold took in tt
    by_result (some (v, ch)) h' = unfold took in (unfold took in h', over)

-- The channel behind the one send.
abbrev sent_chan : Option Error → Chan
sent_chan v = record { buffer = some v; closed = false; history = v ∷ [] }

post_untouched :
    (v : Option Error) (p : Process)
    → p.current.wait_ch ≡ make_chan
    → post v p ≡ some (record p { current = record p.current { wait_ch = sent_chan v } })
unfolding post
post_untouched v p e =
    ap (λ ch. post v (record p { current = record p.current { wait_ch = ch } })) e

-- The send of the current goroutine: its channel is untouched, so that it neither blocks nor panics.
sent-Inv :
    (p : Process) (w : Worker)
    → p.current.worker ≡ w
    → Stage p.current.user_killed p.current.wait_ch w
    → All IsPast p.past
    → p.panicked ≡ false
    → OnSome Inv (send 0 p)
unfolding send sent_life mark_sent
sent-Inv p idle e h past calm = rw e tt
sent-Inv p waiting e h past calm = rw e tt
sent-Inv p (exited x) e h past calm = rw e tt
sent-Inv p (picked x v) e (untouched, fits) past calm =
    rw (send, e)
      (subst (OnSome Inv)
        (sym (
          post_untouched v (record p { current = record p.current { worker = sent x v } })
            untouched))
        (record { current = ((refl, inr refl), refl, fits); past = past; calm = calm }))
sent-Inv p (sent x v) e h past calm = rw e tt
sent-Inv p (ended x v) e h past calm = rw e tt

sent_past-none : (n : ℕ) (ls : List Life) → All IsPast ls → sent_past n ls ≡ none
unfolding sent_past sent_life mark_sent
sent_past-none n [] a = refl
sent_past-none zero (l ∷ ls) ((_, over), a) =
    let (x, v, e) = IsEnded-form l.worker over in rw e refl
sent_past-none (suc n) (l ∷ ls) (h, a) = rw (sent_past-none n ls a) refl

send-Inv : (n : ℕ) (p : Process) → Inv p → OnSome Inv (send n p)
unfolding send
send-Inv zero p inv = sent-Inv p p.current.worker refl inv.current inv.past inv.calm
send-Inv (suc n) p inv = rw (OnSome, send, sent_past-none n p.past inv.past) tt

signalled-Inv : (p : Process) → Inv p → OnSome Inv (step signals p)
unfolding step
signalled-Inv p inv = elim (Bool-cases (is_started p.current.worker)) [
  | inl started ↦
      rw (step, started)
        (record {
          current =
              killed-Stage p.current.user_killed p.current.wait_ch p.current.worker inv.current;
          past = inv.past;
          calm = inv.calm;
        })
  | inr not_started ↦ rw (step, not_started) tt
]

step-Inv : (e : Event) (p : Process) → Inv p → Awaits e p → OnSome Inv (step e p)
unfolding step
step-Inv (starts (some e)) p inv _ = inv
step-Inv (starts none) p inv _ =
    on_life-Inv 0 (λ l. with_worker l (launch l.worker)) p
      (worker-IsOrderly (λ l w. launch w) (λ l w. launch-Stage l.user_killed l.wait_ch w))
      (λ l. no_step l launch (λ x v. unfold launch in refl)) inv
step-Inv (exits n x) p inv _ =
    on_life-Inv n (λ l. with_worker l (reap x l.worker)) p
      (worker-IsOrderly (λ l w. reap x w) (λ l w. reap-Stage l.user_killed l.wait_ch x w))
      (λ l. no_step l (reap x) (λ y v. unfold reap in refl)) inv
step-Inv (loads n) p inv _ =
    on_life-Inv n (λ l. with_worker l (pick l.user_killed l.worker)) p
      (worker-IsOrderly (λ l w. pick l.user_killed w) (λ l w. pick-Stage l.user_killed l.wait_ch w))
      (λ l. no_step l (pick l.user_killed) (λ y v. unfold pick in refl)) inv
step-Inv (sends n) p inv _ = send-Inv n p inv
step-Inv (closes n) p inv _ = on_life-Inv n closed_life p closed-IsOrderly closed-IsPast inv
step-Inv (takes n) p inv _ =
    on_life-Inv n (λ l. took l (receive l.wait_ch)) p took-IsOrderly took-IsPast inv
step-Inv signals p inv _ = signalled-Inv p inv
step-Inv (swaps name) p inv over = record {
  current = refl;
  past = ((inv.current, over), inv.past);
  calm = inv.calm;
}

new_process-Inv : (name : Bytes) → Inv (new_process name)
new_process-Inv name = record { current = refl; past = tt; calm = refl }

-- In every order of the steps of the goroutines in which each restart waits for the end of the goroutine of
-- the command that it replaces, nothing panics; the channel of a life is untouched until its goroutine
-- sends, then has had one value, and is closed when that has ended; the value is how its own command ended,
-- or the error for a command that the user killed where it was; and the goroutines of all lives before the
-- current one have ended.
pub Awaited-Inv : (name : Bytes) {p : Process} → Awaited (new_process name) p → Inv p
Awaited-Inv name here = new_process-Inv name
Awaited-Inv name (next {q} e before awaits taken) =
    OnSome-some Inv (step e q) (step-Inv e q (Awaited-Inv name before) awaits) taken
