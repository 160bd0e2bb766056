-- ===== src/Background/Lifecycle/Stages.antt =====
-- The channel of a life in background/process.go at each stage of its goroutine.
use mathlib.Core.Path.{subst}
use envbox.Prelude.{
  ◌≡◌, ◌⊎◌, refl, sym, ◌∙◌, Bool, true, false, [], ◌∷◌, Option, none, some, Error, inl, inr,
  Bool-cases,
}
use envbox.Background.Process.{wait_result, err_user_killed}
use envbox.Background.Lifecycle.{
  Chan, make_chan, receive, Exit, Worker, idle, waiting, exited, picked, sent, ended, Life, launch,
  reap, pick, leave,
}

-- A value that fits how the command ended: its own result, or the error for a command that the user killed.
abbrev pub Fits : Bool → Exit → Option Error → Type 0
Fits killed x v =
    (v ≡ wait_result false x.output x.result) ⊎ ((killed ≡ true) × (v ≡ some err_user_killed))

-- One value was sent, and it was taken or is still there.
abbrev pub Holds : Chan → Option Error → Type 0
Holds ch v = (ch.history ≡ v ∷ []) × ((ch.buffer ≡ none) ⊎ (ch.buffer ≡ some v))

-- The channel of a life, by where its goroutine stands: untouched up to the send, then with the one value
-- that was sent, and closed at the end.
abbrev pub Stage : Bool → Chan → Worker → Type 0
Stage killed ch idle = ch ≡ make_chan
Stage killed ch waiting = ch ≡ make_chan
Stage killed ch (exited x) = ch ≡ make_chan
Stage killed ch (picked x v) = (ch ≡ make_chan) × Fits killed x v
Stage killed ch (sent x v) = Holds ch v × (ch.closed ≡ false) × Fits killed x v
Stage killed ch (ended x v) = Holds ch v × (ch.closed ≡ true) × Fits killed x v

abbrev pub IsEnded : Worker → Type 0
IsEnded (ended x v) = Unit
IsEnded _ = ⊥

abbrev pub IsOrderly : Life → Type 0
IsOrderly l = Stage l.user_killed l.wait_ch l.worker

abbrev pub IsPast : Life → Type 0
IsPast l = IsOrderly l × IsEnded l.worker

-- What holds of a value if there is one.
abbrev pub OnSome {ℓ κ} : {A : Type ℓ} → (A → Type κ) → Option A → Type κ
OnSome P none = Unit
OnSome P (some a) = P a

pub OnSome-some {ℓ κ} :
    {A : Type ℓ} (P : A → Type κ) (o : Option A) {a : A} → OnSome P o → o ≡ some a → P a
OnSome-some P o h e = subst (OnSome P) e h

killed-Fits : {k : Bool} (x : Exit) (v : Option Error) → Fits k x v → Fits true x v
killed-Fits x v (inl own) = inl own
killed-Fits x v (inr (_, killed)) = inr (refl, killed)

module _ (k : Bool) (ch : Chan) where
  pub launch-Stage : (w : Worker) → Stage k ch w → OnSome (Stage k ch) (launch w)
  unfolding launch
  launch-Stage idle h = h
  launch-Stage waiting h = tt
  launch-Stage (exited x) h = tt
  launch-Stage (picked x v) h = tt
  launch-Stage (sent x v) h = tt
  launch-Stage (ended x v) h = tt

  pub reap-Stage : (x : Exit) (w : Worker) → Stage k ch w → OnSome (Stage k ch) (reap x w)
  unfolding reap
  reap-Stage x idle h = tt
  reap-Stage x waiting h = h
  reap-Stage x (exited y) h = tt
  reap-Stage x (picked y v) h = tt
  reap-Stage x (sent y v) h = tt
  reap-Stage x (ended y v) h = tt

  wait_result-Fits : (x : Exit) → Fits k x (wait_result k x.output x.result)
  unfolding wait_result
  wait_result-Fits x = elim (Bool-cases k) [
    | inl killed ↦ inr (killed, rw killed refl)
    | inr free ↦ inl (rw free refl)
  ]

  pub pick-Stage : (w : Worker) → Stage k ch w → OnSome (Stage k ch) (pick k w)
  unfolding pick
  pick-Stage idle h = tt
  pick-Stage waiting h = tt
  pick-Stage (exited x) h = (h, wait_result-Fits x)
  pick-Stage (picked y v) h = tt
  pick-Stage (sent y v) h = tt
  pick-Stage (ended y v) h = tt

  -- The close behind the send.
  pub leave-Stage :
      (w : Worker) → Stage k ch w → OnSome (Stage k (record ch { closed = true })) (leave w)
  unfolding leave
  leave-Stage idle h = tt
  leave-Stage waiting h = tt
  leave-Stage (exited x) h = tt
  leave-Stage (picked y v) h = tt
  leave-Stage (sent y v) (held, open_ch, fits) = (held, refl, fits)
  leave-Stage (ended y v) h = tt

  -- The flag is set by `kill`.
  pub killed-Stage : (w : Worker) → Stage k ch w → Stage true ch w
  killed-Stage idle h = h
  killed-Stage waiting h = h
  killed-Stage (exited x) h = h
  killed-Stage (picked y v) (made, fits) = (made, killed-Fits y v fits)
  killed-Stage (sent y v) (held, open_ch, fits) = (held, open_ch, killed-Fits y v fits)
  killed-Stage (ended y v) (held, closed, fits) = (held, closed, killed-Fits y v fits)

receive-Holds :
    (ch : Chan) (v : Option Error)
    → Holds ch v
    → OnSome (λ r. Holds r.1 v × (r.1.closed ≡ ch.closed)) (receive ch)
unfolding receive
receive-Holds ch v (once, inl empty) = elim (Bool-cases ch.closed) [
  | inl shut ↦ rw (receive, empty, shut) ((once, inl empty), refl)
  | inr open_ch ↦ rw (receive, empty, open_ch) tt
]
receive-Holds ch v (once, inr full) = rw (receive, full) ((once, inl refl), refl)

OnSome-weaken {ℓ κ μ} :
    {A : Type ℓ} (P : A → Type κ) (Q : A → Type μ)
    → ((a : A) → P a → Q a)
    → (o : Option A) → OnSome P o
    → OnSome Q o
OnSome-weaken P Q keep none h = tt
OnSome-weaken P Q keep (some a) h = keep a h

-- Nothing is received from a channel that was not sent on.
receive_untouched :
    (k : Bool) (w : Worker) (ch : Chan) → ch ≡ make_chan → OnSome (λ r. Stage k r.1 w) (receive ch)
unfolding receive
receive_untouched k w ch e = subst (λ c. OnSome (λ r. Stage k r.1 w) (receive c)) (sym e) tt

pub receive-Stage :
    (k : Bool) (ch : Chan) (w : Worker) → Stage k ch w → OnSome (λ r. Stage k r.1 w) (receive ch)
receive-Stage k ch idle h = receive_untouched k idle ch h
receive-Stage k ch waiting h = receive_untouched k waiting ch h
receive-Stage k ch (exited x) h = receive_untouched k (exited x) ch h
receive-Stage k ch (picked x v) (untouched, fits) = receive_untouched k (picked x v) ch untouched
receive-Stage k ch (sent x v) (held, open_ch, fits) =
    OnSome-weaken _ _ (λ r h. (h.0, h.1 ∙ open_ch, fits)) (receive ch) (receive-Holds ch v held)
receive-Stage k ch (ended x v) (held, closed, fits) =
    OnSome-weaken _ _ (λ r h. (h.0, h.1 ∙ closed, fits)) (receive ch) (receive-Holds ch v held)

pub IsEnded-form : (w : Worker) → IsEnded w → (x : Exit) × (v : Option Error) × (w ≡ ended x v)
IsEnded-form (ended x v) h = (x, v, refl)
IsEnded-form idle h = absurd h
IsEnded-form waiting h = absurd h
IsEnded-form (exited x) h = absurd h
IsEnded-form (picked x v) h = absurd h
IsEnded-form (sent x v) h = absurd h
