-- ===== src/Cli/Command/StartupLog/Told.antt =====
-- What the build log of cli/docker.go shows on the standard error.
use mathlib.Core.Path.{subst}
use envbox.Prelude.{
  ℕ, ◌≡◌, inl, inr, refl, sym, ap, ◌∙◌, false, ◌&&◌, not, List, [], ◌∷◌, ◌++◌, map, Option, none,
  some, Bytes, codes, same, Error, Result, ok, err, append_assoc, append-nil, Bool-cases,
  Option-cases, length,
}
use envbox.Buildlog.Multi.{Logger, multi_logger, each, multi_logger_close}
use envbox.Buildlog.Coder.{
  LogLevel, level_info, level_error, Call, log_error, Api, CoderClient, open_coder_client,
  open_coder_logger,
}
use envbox.Buildlog.Coder.Sent.{log_all}
use envbox.Buildlog.Json.{
  JsonLog, Encoder, json_log, json_logger, json_log_type_done, json_log_type_info,
  json_log_type_error,
}
use envbox.Cli.Command.{Options, Host}
use envbox.Cli.Command.StartupLog.{State, on_api, on_stderr, base_log, open_blog, finish_blog}

-- The type and the output of each record, if the encoder did not panic.
abbrev pub shown : Option (List JsonLog) → Option (List (Bytes × Bytes))
shown none = none
shown (some records) = some (map (λ r. (r.kind, r.output)) records)

abbrev pub add {ℓ} : {A : Type ℓ} → Option (List A) → A → Option (List A)
add none a = none
add (some l) a = some (l ++ a ∷ [])

map-snoc {ℓ κ} :
    {A : Type ℓ} {B : Type κ} (f : A → B) (l : List A) (a : A)
    → map f (l ++ a ∷ []) ≡ map f l ++ f a ∷ []
map-snoc f [] a = refl
map-snoc f (x ∷ l) a = ap (λ k. f x ∷ k) (map-snoc f l a)

json_log-shown :
    (e : Encoder) (kind output : Bytes) (s : Option (List JsonLog))
    → ((records : List JsonLog) (r : JsonLog) → e.encode records r ≡ none)
    → shown (json_log e kind output s) ≡ add (shown s) (kind, output)
unfolding json_log
json_log-shown e kind output none fine = refl
json_log-shown e kind output (some records) fine =
    rw (json_log, fine records _) (ap some (map-snoc (λ r. (r.kind, r.output)) records _))

-- A logger that shows all that it is told, and whose `Write` takes all of a text as a line.
pub record Tells (l : Logger State) : Type 0 where
  pub info_lem :
      (output : Bytes) (s : State)
      → shown (l.info output s).1 ≡ add (shown s.1) (json_log_type_info, output)
  pub error_lem :
      (output : Bytes) (s : State)
      → shown (l.error output s).1 ≡ add (shown s.1) (json_log_type_error, output)
  pub close_lem : (s : State) → shown (l.close s).1.1 ≡ add (shown s.1) (json_log_type_done, [])
  pub write_lem : (p : Bytes) (s : State) → l.write p s ≡ ((length p, none), l.info p s)

module _ (e : Encoder)
    (fine : (records : List JsonLog) (r : JsonLog) → e.encode records r ≡ none) where
  stderr-Tells : Tells (on_stderr (json_logger e))
  unfolding on_stderr json_logger
  stderr-Tells = record {
    info_lem = λ output s. json_log-shown e json_log_type_info output s.1 fine;
    error_lem = λ output s. json_log-shown e json_log_type_error output s.1 fine;
    close_lem = λ s. json_log-shown e json_log_type_done [] s.1 fine;
    write_lem = λ p s. refl;
  }

  multi-Tells :
      (c : CoderClient)
      → Tells (multi_logger (on_api (open_coder_logger c) ∷ on_stderr (json_logger e) ∷ []))
  unfolding on_stderr json_logger multi_logger each on_api
  multi-Tells c = record {
    info_lem = λ output s. json_log-shown e json_log_type_info output s.1 fine;
    error_lem = λ output s. json_log-shown e json_log_type_error output s.1 fine;
    close_lem = λ s.
        ap (λ x. shown x.1)
          (multi_logger_close (on_api (open_coder_logger c) ∷ on_stderr (json_logger e) ∷ []) s).0
        ∙ json_log-shown e json_log_type_done [] s.1 fine;
    write_lem = λ p s. refl;
  }

abbrev pub kind_of : LogLevel → Bytes
kind_of level_info = json_log_type_info
kind_of level_error = json_log_type_error

-- The records for the messages, and for the end of the command.
abbrev pub entries : List (LogLevel × Bytes) → List (Bytes × Bytes)
entries messages = map (λ m. (kind_of m.0, m.1)) messages

abbrev pub ending : Option Error → List (Bytes × Bytes)
ending none = (json_log_type_done, []) ∷ []
ending (some x) =
    (json_log_type_error, codes "Failed to run envbox: " ++ x.text) ∷ (json_log_type_done, []) ∷ []

abbrev pub add_all {ℓ} : {A : Type ℓ} → Option (List A) → List A → Option (List A)
add_all none l = none
add_all (some k) l = some (k ++ l)

add_all-add {ℓ} :
    {A : Type ℓ} (k : Option (List A)) (a : A) (l : List A)
    → add_all (add k a) l ≡ add_all k (a ∷ l)
add_all-add none a l = refl
add_all-add (some k) a l = ap some (append_assoc k (a ∷ []) l)

add_all-one {ℓ} : {A : Type ℓ} (k : Option (List A)) (a : A) → add k a ≡ add_all k (a ∷ [])
add_all-one none a = refl
add_all-one (some k) a = refl

add_all-nil {ℓ} : {A : Type ℓ} (k : Option (List A)) → add_all k [] ≡ k
add_all-nil none = refl
add_all-nil (some k) = ap some (append-nil k)

log_all-shown :
    (l : Logger State) (messages : List (LogLevel × Bytes)) (s : State)
    → Tells l
    → shown (log_all l messages s).1 ≡ add_all (shown s.1) (entries messages)
log_all-shown l [] s tells = sym (add_all-nil (shown s.1))
log_all-shown l ((level_info, output) ∷ messages) s tells =
    log_all-shown l messages (l.info output s) tells
    ∙ ap (λ k. add_all k (entries messages)) (tells.info_lem output s)
    ∙ add_all-add (shown s.1) _ (entries messages)
log_all-shown l ((level_error, output) ∷ messages) s tells =
    log_all-shown l messages (l.error output s) tells
    ∙ ap (λ k. add_all k (entries messages)) (tells.error_lem output s)
    ∙ add_all-add (shown s.1) _ (entries messages)

finish_blog-shown :
    (l : Logger State) (r : Option Error) (s : State)
    → Tells l
    → shown (finish_blog l r s).1 ≡ add_all (shown s.1) (ending r)
unfolding finish_blog
finish_blog-shown l none s tells = tells.close_lem s ∙ add_all-one (shown s.1) _
finish_blog-shown l (some x) s tells =
    tells.close_lem (l.error (codes "Failed to run envbox: " ++ x.text) s)
    ∙ ap (λ k. add k (json_log_type_done, [])) (tells.error_lem _ s)
    ∙ add_all-one (add (shown s.1) _) _
    ∙ add_all-add (shown s.1) _ _

-- Startup logs are on and the encoder does not fail.
module _ (h : Host) (api : Api) (e : Encoder) (f : Options)
    (fine : (records : List JsonLog) (r : JsonLog) → e.encode records r ≡ none)
    (logs_on : f.no_startup_logs ≡ false) where
  base_log-Tells : Tells (base_log h api e f)
  unfolding base_log
  base_log-Tells = rw (base_log, logs_on) (stderr-Tells e fine)

  multi_base-Tells :
      (c : CoderClient)
      → Tells (multi_logger (on_api (open_coder_logger c) ∷ base_log h api e f ∷ []))
  unfolding base_log
  multi_base-Tells c = rw (base_log, logs_on) (multi-Tells e fine c)

  -- The log that is opened, in each case of the client.
  opened-Tells :
      (r : Option (Result CoderClient × List Call)) (s s' : State) (l : Logger State)
      → elim r as (λ _. Option (Result (Logger State) × State)) [
        | none ↦ none
        | some (err x, t) ↦ some (
          ok (base_log h api e f),
          (
            t
                ++ log_error
                    (codes "failed to instantiate coder build log client, no logs will be pushed")
                  ∷ [],
            s.1,
          ),
        )
        | some (ok agent, t) ↦ some (
          ok (multi_logger (on_api (open_coder_logger agent) ∷ base_log h api e f ∷ [])),
          (t, s.1),
        )
      ]
        ≡ some (ok l, s')
      → Tells l × (s'.1 ≡ s.1)
  opened-Tells none s s' l opened = absurd (cc opened)
  opened-Tells (some (err x, t)) s s' l opened = (subst Tells (cc opened) base_log-Tells, cc opened)
  opened-Tells (some (ok agent, t)) s s' l opened =
      (subst Tells (cc opened) (multi_base-Tells agent), cc opened)

  pub open_blog-Tells :
      (fuel : ℕ) (s s' : State) (l : Logger State)
      → open_blog h api e f fuel s ≡ some (ok l, s')
      → Tells l × (s'.1 ≡ s.1)
  unfolding open_blog
  open_blog-Tells fuel s s' l opened =
      elim (Bool-cases
        (not f.no_startup_logs && not (same f.cvm.agent_token []) && not (same f.coder_url []))) [
          | inr off ↦
              let base : some (ok (base_log h api e f), s) ≡ some (ok l, s') =
                rw (open_blog, off) at opened in
              (subst Tells (cc base) base_log-Tells, cc base)
          | inl on ↦ elim (Option-cases (h.parse_url f.coder_url)) [
            | inr (x, bad) ↦ absurd (cc (rw (open_blog, on, bad) at opened))
            | inl parsed ↦
                opened-Tells (open_coder_client api fuel s.0) s s' l
                  (rw (open_blog, on, parsed) at opened)
          ]
        ]

-- With startup logs and an encoder that does not fail, the standard error shows every message that the log
-- is given in order, whatever the API of Coder answers. Behind them comes the error of the command, if it
-- has one, and the last record says that the log is done.
pub finish_blog-open_blog :
    (h : Host) (api : Api) (e : Encoder) (f : Options) (fuel : ℕ) (t : List Call) (l : Logger State)
    (s : State) (messages : List (LogLevel × Bytes)) (r : Option Error)
    → ((records : List JsonLog) (r : JsonLog) → e.encode records r ≡ none)
    → f.no_startup_logs ≡ false
    → open_blog h api e f fuel (t, some []) ≡ some (ok l, s)
    → shown (finish_blog l r (log_all l messages s)).1 ≡ some (entries messages ++ ending r)
finish_blog-open_blog h api e f fuel t l s messages r fine logs_on opened =
    let (tells, same_records) =
      open_blog-Tells h api e f fine logs_on fuel (t, some []) s l opened in
    finish_blog-shown l r (log_all l messages s) tells
    ∙ ap (λ k. add_all k (ending r)) (log_all-shown l messages s tells)
    ∙ ap (λ k. add_all (add_all (shown k) (entries messages)) (ending r)) same_records
