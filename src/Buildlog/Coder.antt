-- ===== src/Buildlog/Coder.antt =====
-- The clients and the logger of buildlog/coder.go, behind `cutString`.
--
-- The calls to the API of Coder, to its log sender and to the log of envbox are listed in order, and each
-- answer is a function of the calls before it.
pub mod Sent
pub mod Connect
mod Tests
use envbox.Prelude.{
  ℕ, zero, suc, Bool, true, false, List, [], ◌∷◌, ◌++◌, Option, none, some, Bytes, codes, Error,
  wrap, failure, Result, ok, err, length, if◌then◌else◌,
}
use envbox.Prelude.Steps.{Step, Nil, nil, ◌>>=◌, after, within, given, return, call, ask}
use envbox.Buildlog.Cut.{cut_string}
use envbox.Buildlog.Multi.{Logger}

pub data LogLevel : Type 0 where
  level_info : LogLevel
  level_error : LogLevel

-- `agentsdk.Log`
pub record Log : Type 0 where
  pub created_at : ℕ
  pub output : Bytes
  pub level : LogLevel

pub data Call : Type 0 where
  build_info : Call
  patch_logs : List Log → Call
  connect_rpc : Call
  -- The goroutine with `SendLoop` is started.
  send_loop : Call
  script_send : Log → Call
  -- `LogSender.Flush`
  flush_source : Call
  wait_until_empty : Call
  cancel : Call
  -- `logger.Error` of envbox with the message
  log_error : Bytes → Call

-- What the API, the log sender and the clock answer.
pub record Api : Type 0 where
  -- The version of the server.
  pub build_info : List Call → Result Bytes
  pub patch_logs : List Call → Option Error
  pub connect_rpc : List Call → Option Error
  pub script_send : List Call → Option Error
  pub wait_until_empty : List Call → Option Error
  -- What `r.Wait(ctx)` answers: false where the context is done.
  pub wait : List Call → Bool
  -- `time.Now` for the `k`-th entry since the calls.
  pub now : List Call → ℕ → ℕ
  -- `semver.MajorMinor`, and `semver.Compare(v, w) < 0`
  pub major_minor : Bytes → Bytes
  pub is_below : Bytes → Bytes → Bool

abbrev pub max_coder_log_size : ℕ
max_coder_log_size = 1024

-- The interface `CoderClient`.
pub record CoderClient : Type 0 where
  pub send : LogLevel → Bytes → Step Call Nil
  pub close : Step Call Nil

-- The lines that `cutString` returns, for which it takes fewer rounds than the text has bytes and one.
unfoldable pub cut_lines : Bytes → List Bytes
cut_lines log = elim (cut_string (suc (length log)) log max_coder_log_size) [
  | some lines ↦ lines
  | none ↦ []
]

-- The loop over the lines, from the `k`-th one on.
unfoldable pub to_logs : (ℕ → ℕ) → LogLevel → ℕ → List Bytes → List Log
to_logs now level k [] = []
to_logs now level k (output ∷ lines) =
    record { created_at = now k; output = output; level = level } ∷ to_logs now level (suc k) lines

-- A call with no result.
abbrev pub emit : Call → Step Call Nil
emit c t = (ok nil, t ++ c ∷ [])

-- The error of `newAgentClientV2`, with how `%w` prints a nil where there was no try.
unfoldable pub connect_error : Option Error → Error
connect_error (some e) = wrap (codes "connect rpc") e
connect_error none = failure (codes "connect rpc: %!w(<nil>)")

module _ (api : Api) where
  unfoldable pub send_v1 : LogLevel → Bytes → Step Call Nil
  unfolding cut_lines to_logs call
  send_v1 level log t =
      call (codes "send build log") (patch_logs (to_logs (api.now t) level 0 (cut_lines log)))
        api.patch_logs t

  pub agent_client_v1 : CoderClient
  unfolding send_v1
  agent_client_v1 = record { send = send_v1; close = return nil }

  unfoldable pub flush_v2 : Step Call Nil
  unfolding after call
  flush_v2 = do
    flushed ← emit flush_source
    call (codes "wait until empty") wait_until_empty api.wait_until_empty

  unfoldable pub send_v2 : LogLevel → Bytes → Step Call Nil
  unfolding flush_v2 after call
  send_v2 level log t =
      (do
        sent ←
            call (codes "send build log")
              (script_send (record { created_at = api.now t 0; output = log; level = level }))
              api.script_send
        within (codes "flush") flush_v2)
        t

  -- The deferred `cancel` comes behind the flush on both of its branches.
  unfoldable pub close_v2 : Step Call Nil
  unfolding flush_v2
  close_v2 t = let r = flush_v2 t in (r.0, r.1 ++ cancel ∷ [])

  pub agent_client_v2 : CoderClient
  unfolding send_v2 close_v2
  agent_client_v2 = record { send = send_v2; close = close_v2 }

  -- The loop of `newAgentClientV2`, with the error of the last try. It gives `ok` where it has a
  -- connection, and is `none` where it needs more rounds than the fuel.
  pub connect_loop : ℕ → Option Error → List Call → Option (Result Nil × List Call)
  connect_loop zero last t = none
  connect_loop (suc fuel) last t = elim (api.wait t) [
    | false ↦ some (err (connect_error last), t ++ cancel ∷ [])
    | true ↦ elim (api.connect_rpc t) [
      | none ↦ some (ok nil, t ++ connect_rpc ∷ [])
      | some e ↦
          connect_loop fuel (some e) (t ++ connect_rpc ∷ log_error (codes "connect err") ∷ [])
    ]
  ]

  pub new_agent_client_v2 : ℕ → List Call → Option (Result CoderClient × List Call)
  unfolding connect_loop agent_client_v2
  new_agent_client_v2 fuel t = elim (connect_loop fuel none t) [
    | none ↦ none
    | some (err e, t') ↦ some (err e, t')
    | some (ok conn, t') ↦ some (ok agent_client_v2, t' ++ send_loop ∷ [])
  ]

  unfoldable pub open_coder_client : ℕ → List Call → Option (Result CoderClient × List Call)
  unfolding new_agent_client_v2 agent_client_v1
  open_coder_client fuel t =
      let made = t ++ build_info ∷ [] in
      elim (api.build_info t) [
        | err e ↦ some (err (wrap (codes "build info") e), made)
        | ok version ↦ elim (api.is_below (api.major_minor version) (codes "v2.13")) [
          | true ↦ some (ok agent_client_v1, made)
          | false ↦ new_agent_client_v2 fuel made
        ]
      ]

-- `CoderLogger.log`, whose failures go to the log of envbox.
unfoldable pub coder_log : CoderClient → LogLevel → Bytes → List Call → List Call
coder_log c level output t = elim (c.send level output t).0 [
  | ok sent ↦ (c.send level output t).1
  | err e ↦ (c.send level output t).1 ++ log_error (codes "send build log") ∷ []
]

-- `OpenCoderLogger`
pub open_coder_logger : CoderClient → Logger (List Call)
unfolding coder_log
open_coder_logger c = record {
  info = coder_log c level_info;
  error = coder_log c level_error;
  close = λ t. let r = c.close t in (elim r.0 [ ok closed ↦ none | err e ↦ some e ], r.1);
  write = λ p t. ((length p, none), coder_log c level_info p t);
}
