-- ===== src/Buildlog/Multi.antt =====
-- `multiLogger` and `NopLogger` of buildlog/logger.go. A logger is its operations on the state `S` of all loggers.
use envbox.Prelude.{
  ℕ, length, ◌≡◌, ◌↔◌, ◌≢◌, refl, List, [], ◌∷◌, Option, none, some, Bytes, codes, Error, wrap, ◌∙◌,
}

pub record Logger (S : Type 0) : Type 0 where
  pub info : Bytes → S → S
  pub error : Bytes → S → S
  pub close : S → Option Error × S
  -- the number of bytes taken, and an error
  pub write : Bytes → S → (ℕ × Option Error) × S

-- `errs` with the error of one more logger
join_errors : Option Error → Option Error → Option Error
join_errors errs none = errs
join_errors none (some e) = some e
join_errors (some es) (some e) = some (wrap es.text e)

module _ {S : Type 0} where
  unfoldable pub each : (Logger S → S → S) → List (Logger S) → S → S
  each f [] s = s
  each f (log ∷ logs) s = each f logs (f log s)

  unfoldable pub close_each : List (Logger S) → Option Error → S → Option Error × S
  unfolding join_errors
  close_each [] errs s = (errs, s)
  close_each (log ∷ logs) errs s =
      close_each logs (join_errors errs (log.close s).0) (log.close s).1

  unfoldable pub close_all : List (Logger S) → S → Option Error × S
  unfolding close_each
  close_all logs s =
      let (errs, s') = close_each logs none s in
      elim errs [ some e ↦ (some (wrap (codes "close") e), s') | none ↦ (none, s') ]

  -- `MultiLogger`, whose methods call those of every logger in order.
  unfoldable pub multi_logger : List (Logger S) → Logger S
  unfolding each
  multi_logger logs = record {
    info = λ output. each (λ log. log.info output) logs;
    error = λ output. each (λ log. log.error output) logs;
    close = close_all logs;
    write = λ p s. ((length p, none), each (λ log. log.info p) logs s);
  }

  -- `NopLogger`, whose `Write` reports that it took nothing.
  abbrev pub nop_logger : Logger S
  nop_logger = record {
    info = λ output s. s;
    error = λ output s. s;
    close = λ s. (none, s);
    write = λ p s. ((0, none), s);
  }

  -- The state after every logger was closed, the failures of some notwithstanding.
  abbrev pub closed : List (Logger S) → S → S
  closed [] s = s
  closed (log ∷ logs) s = closed logs (log.close s).1

  -- No logger fails to close.
  abbrev pub CloseFine : List (Logger S) → S → Type 0
  CloseFine [] s = Unit
  CloseFine (log ∷ logs) s = ((log.close s).0 ≡ none) × CloseFine logs (log.close s).1

  close_each_state :
      (logs : List (Logger S)) (errs : Option Error) (s : S)
      → (close_each logs errs s).1 ≡ closed logs s
  unfolding close_each
  close_each_state [] errs s = refl
  close_each_state (log ∷ logs) errs s =
      close_each_state logs (join_errors errs (log.close s).0) (log.close s).1

  close_each_failed :
      (logs : List (Logger S)) (e : Error) (s : S) → (close_each logs (some e) s).0 ≢ none
  unfolding close_each join_errors
  close_each_failed [] e s = λ h. cc h
  close_each_failed (log ∷ logs) e s =
      by_close (log.close s).0 (λ e'. close_each_failed logs e' (log.close s).1)
    where
      by_close :
          (r : Option Error)
          → ((e' : Error) → (close_each logs (some e') (log.close s).1).0 ≢ none)
          → (close_each logs (join_errors (some e) r) (log.close s).1).0 ≢ none
      by_close none failed = failed e
      by_close (some e') failed = failed (wrap e.text e')

  close_each_fine :
      (logs : List (Logger S)) (s : S) → ((close_each logs none s).0 ≡ none) ↔ CloseFine logs s
  unfolding close_each join_errors
  close_each_fine [] s = (λ h. tt, λ h. refl)
  close_each_fine (log ∷ logs) s = by_close (log.close s).0 (close_each_fine logs (log.close s).1)
    where
      by_close :
          (r : Option Error)
          → (((close_each logs none (log.close s).1).0 ≡ none) ↔ CloseFine logs (log.close s).1)
          → ((close_each logs (join_errors none r) (log.close s).1).0 ≡ none)
            ↔ ((r ≡ none) × CloseFine logs (log.close s).1)
      by_close none rest = (λ h. (refl, rest.0 h), λ h. rest.1 h.1)
      by_close (some e) rest =
          (λ h. absurd (close_each_failed logs e (log.close s).1 h), λ h. absurd (cc h.0))

  close_all-close_each :
      (logs : List (Logger S)) (s : S)
      → ((close_all logs s).1 ≡ (close_each logs none s).1)
        × (((close_all logs s).0 ≡ none) ↔ ((close_each logs none s).0 ≡ none))
  unfolding close_all
  close_all-close_each logs s = cases (close_each logs none s)
    where
      cases :
          (r : Option Error × S)
          → (((elim r.0 as (λ _. Option Error × S) [
            | some e ↦ (some (wrap (codes "close") e), r.1)
            | none ↦ (none, r.1)
          ]).1
                ≡ r.1)
              × (((elim r.0 as (λ _. Option Error × S) [
                | some e ↦ (some (wrap (codes "close") e), r.1)
                | none ↦ (none, r.1)
              ]).0
                    ≡ none)
                  ↔ (r.0 ≡ none)))
      cases (none, s') = (refl, (λ h. refl, λ h. refl))
      cases (some e, s') = (refl, (λ h. absurd (cc h), λ h. absurd (cc h)))

-- To close a `MultiLogger` closes every logger in order, those behind one that fails included, and the
-- result is nil exactly where no logger fails.
pub multi_logger_close :
    {S : Type 0} (logs : List (Logger S)) (s : S)
    → (((multi_logger logs).close s).1 ≡ closed logs s)
      × ((((multi_logger logs).close s).0 ≡ none) ↔ CloseFine logs s)
unfolding multi_logger
multi_logger_close logs s =
    let (state, result) = close_all-close_each logs s in
    let (to, from) = close_each_fine logs s in
    (state ∙ close_each_state logs none s, (λ h. to (result.0 h), λ h. result.1 (from h)))
