-- ===== src/Buildlog/Coder/Sent.antt =====
-- What reaches the API of Coder from the clients of buildlog/coder.go.
use mathlib.Core.Path.{subst}
use envbox.Prelude.{
  ℕ, suc, ◌*◌, ◌≤◌, ◌≡◌, inl, inr, refl, sym, ap, ◌∙◌, List, [], ◌∷◌, ◌++◌, map, Option, none, some,
  Bytes, codes, Result, ok, err, append_assoc, append-nil, arith, length, length-append, Bool-cases,
  Option-cases, Result-cases,
}
use envbox.Prelude.Steps.{Nil, after, call, answered}
use envbox.Buildlog.Cut.{concat, IsCut, cut_string_lem}
use envbox.Buildlog.Multi.{Logger}
use envbox.Buildlog.Coder.{
  LogLevel, level_info, level_error, Log, Call, build_info, patch_logs, connect_rpc, send_loop,
  script_send, flush_source, wait_until_empty, cancel, log_error, Api, CoderClient, cut_lines,
  to_logs, max_coder_log_size, send_v1, agent_client_v1, flush_v2, send_v2, agent_client_v2,
  connect_loop, new_agent_client_v2, open_coder_client, coder_log, open_coder_logger,
}

-- The text that a call hands over.
abbrev pub text_of : Call → Bytes
text_of (patch_logs logs) = concat (map (λ l. l.output) logs)
text_of (script_send l) = l.output
text_of build_info = []
text_of connect_rpc = []
text_of send_loop = []
text_of flush_source = []
text_of wait_until_empty = []
text_of cancel = []
text_of (log_error x) = []

abbrev pub texts : List Call → Bytes
texts [] = []
texts (c ∷ cs) = text_of c ++ texts cs

texts-append : (a b : List Call) → texts (a ++ b) ≡ texts a ++ texts b
texts-append [] b = refl
texts-append (c ∷ a) b =
    ap (λ x. text_of c ++ x) (texts-append a b) ∙ sym (append_assoc (text_of c) (texts a) (texts b))

texts-snoc : (t : List Call) (c : Call) → texts (t ++ c ∷ []) ≡ texts t ++ text_of c
texts-snoc t c = texts-append t (c ∷ []) ∙ ap (λ x. texts t ++ x) (append-nil (text_of c))

texts-silent : (t : List Call) (c : Call) → text_of c ≡ [] → texts (t ++ c ∷ []) ≡ texts t
texts-silent t c silent = texts-snoc t c ∙ ap (λ x. texts t ++ x) silent ∙ append-nil (texts t)

-- The lines are the whole text, in parts of the size.
pub cut_lines_lem :
    (log : Bytes) → (concat (cut_lines log) ≡ log) × IsCut max_coder_log_size (cut_lines log)
unfolding cut_lines
cut_lines_lem log =
    let (ps, e, whole, cut) =
      cut_string_lem (suc (length log)) log max_coder_log_size (omega arith) (omega arith) in
    rw (cut_lines, e) (whole, cut)

to_logs-outputs :
    (now : ℕ → ℕ) (level : LogLevel) (k : ℕ) (lines : List Bytes)
    → map (λ l. l.output) (to_logs now level k lines) ≡ lines
unfolding to_logs
to_logs-outputs now level k [] = refl
to_logs-outputs now level k (x ∷ lines) =
    ap (λ ls. x ∷ ls) (to_logs-outputs now level (suc k) lines)

-- All entries are of the level.
abbrev pub OfLevel : LogLevel → List Log → Type 0
OfLevel level [] = Unit
OfLevel level (l ∷ logs) = (l.level ≡ level) × OfLevel level logs

to_logs-OfLevel :
    (now : ℕ → ℕ) (level : LogLevel) (k : ℕ) (lines : List Bytes)
    → OfLevel level (to_logs now level k lines)
unfolding to_logs
to_logs-OfLevel now level k [] = tt
to_logs-OfLevel now level k (x ∷ lines) = (refl, to_logs-OfLevel now level (suc k) lines)

length-to_logs :
    (now : ℕ → ℕ) (level : LogLevel) (k : ℕ) (lines : List Bytes)
    → length (to_logs now level k lines) ≡ length lines
unfolding to_logs
length-to_logs now level k [] = refl
length-to_logs now level k (x ∷ lines) = ap suc (length-to_logs now level (suc k) lines)

-- A client that hands over the text of each message, whatever the calls answer.
pub record Sends (c : CoderClient) : Type 0 where
  pub sends :
      (level : LogLevel) (log : Bytes) (t : List Call)
      → texts (c.send level log t).1 ≡ texts t ++ log

module _ (api : Api) where
  send_v1-Sends : Sends (agent_client_v1 api)
  unfolding agent_client_v1 send_v1 call
  send_v1-Sends = record {
    sends = λ level log t.
        texts-snoc t _
        ∙ ap (λ x. texts t ++ x)
            (ap concat (to_logs-outputs (api.now t) level 0 (cut_lines log))
              ∙ (cut_lines_lem log).0);
  }

  flush_silent : (t : List Call) → texts (flush_v2 api t).1 ≡ texts t
  unfolding flush_v2 after call
  flush_silent t =
      texts-silent (t ++ flush_source ∷ []) wait_until_empty refl ∙ texts-silent t flush_source refl

  send_v2_sends :
      (level : LogLevel) (log : Bytes) (t : List Call)
      → texts (send_v2 api level log t).1 ≡ texts t ++ log
  unfolding send_v2 after call answered
  send_v2_sends level log t =
      let entry : Log = record { created_at = api.now t 0; output = log; level = level } in
      let handed : texts (t ++ script_send entry ∷ []) ≡ texts t ++ log =
        texts-snoc t (script_send entry) in
      elim (Option-cases (api.script_send t)) [
        | inl sent ↦ rw (send_v2, sent) (flush_silent (t ++ script_send entry ∷ []) ∙ handed)
        | inr (e, failed) ↦ rw (send_v2, failed) handed
      ]

  send_v2-Sends : Sends (agent_client_v2 api)
  unfolding agent_client_v2
  send_v2-Sends = record { sends = send_v2_sends }

  -- The client that is made behind the connection.
  new_client-Sends :
      (r : Option (Result Nil × List Call)) (c : CoderClient) (t' : List Call)
      → elim r as (λ _. Option (Result CoderClient × List Call)) [
        | none ↦ none
        | some (err e, t') ↦ some (err e, t')
        | some (ok conn, t') ↦ some (ok (agent_client_v2 api), t' ++ send_loop ∷ [])
      ]
        ≡ some (ok c, t')
      → Sends c
  new_client-Sends none c t' e = absurd (cc e)
  new_client-Sends (some (err x, u)) c t' e = absurd (cc e)
  new_client-Sends (some (ok conn, u)) c t' e = subst Sends (cc e) send_v2-Sends

  open_coder_client-Sends :
      (fuel : ℕ) (t t' : List Call) (c : CoderClient)
      → open_coder_client api fuel t ≡ some (ok c, t')
      → Sends c
  unfolding open_coder_client new_agent_client_v2
  open_coder_client-Sends fuel t t' c e = elim (Result-cases (api.build_info t)) [
    | inr (x, failed) ↦ absurd (cc (rw (open_coder_client, failed) at e))
    | inl (version, told) ↦
        elim (Bool-cases (api.is_below (api.major_minor version) (codes "v2.13"))) [
          | inl old ↦ subst Sends (cc (rw (open_coder_client, told, old) at e)) send_v1-Sends
          | inr new ↦
              new_client-Sends (connect_loop api fuel none (t ++ build_info ∷ [])) c t'
                (rw (open_coder_client, told, new) at e)
        ]
  ]

coder_log-texts :
    (c : CoderClient) (level : LogLevel) (log : Bytes) (t : List Call)
    → Sends c
    → texts (coder_log c level log t) ≡ texts t ++ log
unfolding coder_log
coder_log-texts c level log t faithful = elim (Result-cases (c.send level log t).0) [
  | inl (x, sent) ↦ rw (coder_log, sent) (faithful.sends level log t)
  | inr (e, failed) ↦
      rw (coder_log, failed)
        (texts-silent (c.send level log t).1 (log_error (codes "send build log")) refl
          ∙ faithful.sends level log t)
]

-- Messages with their levels, given to a logger in order.
abbrev pub log_all : {S : Type 0} → Logger S → List (LogLevel × Bytes) → S → S
log_all l [] t = t
log_all l ((level_info, output) ∷ messages) t = log_all l messages (l.info output t)
log_all l ((level_error, output) ∷ messages) t = log_all l messages (l.error output t)

abbrev pub outputs : List (LogLevel × Bytes) → Bytes
outputs [] = []
outputs ((level, output) ∷ messages) = output ++ outputs messages

log_all-texts :
    (c : CoderClient) (messages : List (LogLevel × Bytes)) (t : List Call)
    → Sends c
    → texts (log_all (open_coder_logger c) messages t) ≡ texts t ++ outputs messages
unfolding open_coder_logger
log_all-texts c [] t faithful = sym (append-nil (texts t))
log_all-texts c ((level_info, output) ∷ messages) t faithful =
    log_all-texts c messages (coder_log c level_info output t) faithful
    ∙ ap (λ x. x ++ outputs messages) (coder_log-texts c level_info output t faithful)
    ∙ append_assoc (texts t) output (outputs messages)
log_all-texts c ((level_error, output) ∷ messages) t faithful =
    log_all-texts c messages (coder_log c level_error output t) faithful
    ∙ ap (λ x. x ++ outputs messages) (coder_log-texts c level_error output t faithful)
    ∙ append_assoc (texts t) output (outputs messages)

-- Whichever client `OpenCoderClient` returns for the version of the server, a logger over it hands over the
-- texts of all its messages, whole and in order, also where calls of the API fail.
pub open_coder_client-texts :
    (api : Api) (fuel : ℕ) (t t' : List Call) (c : CoderClient) (messages : List (LogLevel × Bytes))
    → open_coder_client api fuel t ≡ some (ok c, t')
    → texts (log_all (open_coder_logger c) messages t') ≡ texts t' ++ outputs messages
open_coder_client-texts api fuel t t' c messages opened =
    log_all-texts c messages t' (open_coder_client-Sends api fuel t t' c opened)

concat-IsCut : (size : ℕ) (ps : List Bytes) → IsCut size ps → length (concat ps) ≤ length ps * size
concat-IsCut size [] cut = absurd cut
concat-IsCut size (p ∷ []) cut = omega (arith, cut, length-append p [])
concat-IsCut size (p ∷ q ∷ ps) (full, cut) =
    omega (arith, full, concat-IsCut size (q ∷ ps) cut, length-append p (concat (q ∷ ps)))

-- `Send` of the first client makes one request, with its result. The texts of its entries in a row are the
-- message; each has 1024 bytes but the last, which has at most that, so that a message of more than 20 KiB
-- makes more than twenty entries. All are of the level of the message.
pub send_v1_lem :
    (api : Api) (level : LogLevel) (log : Bytes) (t : List Call)
    → (logs : List Log) × (send_v1 api level log t
        ≡ (answered (codes "send build log") (api.patch_logs t), t ++ patch_logs logs ∷ []))
      × (concat (map (λ l. l.output) logs) ≡ log)
      × IsCut 1024 (map (λ l. l.output) logs)
      × OfLevel level logs
      × (length log ≤ length logs * 1024)
unfolding send_v1 call
send_v1_lem api level log t =
    let outs = to_logs-outputs (api.now t) level 0 (cut_lines log) in
    let (whole, cut) = cut_lines_lem log in
    (
      to_logs (api.now t) level 0 (cut_lines log),
      refl,
      ap concat outs ∙ whole,
      subst (IsCut 1024) (sym outs) cut,
      to_logs-OfLevel (api.now t) level 0 (cut_lines log),
      omega (
        arith,
        concat-IsCut 1024 (cut_lines log) cut,
        ap length whole,
        length-to_logs (api.now t) level 0 (cut_lines log),
      ),
    )
