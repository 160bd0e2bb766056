-- ===== src/Cli/Command/StartupLog.antt =====
-- cli/docker.go: the build log of `dockerCmd`, from its opening to the deferred calls, and the copy of the
-- bootstrap script's output to it at the end of `runDockerCVM`.
--
-- The state of the log is the calls to the API of Coder and the records on the standard error.
pub mod Told
pub mod Output
mod Tests
use envbox.Prelude.{
  ℕ, zero, suc, ◌-◌, Bool, true, false, ◌&&◌, not, List, [], ◌∷◌, ◌++◌, Option, none, some, Bytes,
  codes, same, quote, Error, failure, wrap, Result, ok, err, if◌then◌else◌, length, take, ltb, ◌==◌,
}
use envbox.Buildlog.Multi.{Logger, multi_logger, nop_logger}
use envbox.Buildlog.Coder.{Call, log_error, Api, open_coder_client, open_coder_logger}
use envbox.Buildlog.Json.{JsonLog, Encoder, json_logger}
use envbox.Cli.Command.{Options, Host}

abbrev pub State : Type 0
State = List Call × Option (List JsonLog)

unfoldable pub on_api : Logger (List Call) → Logger State
on_api l = record {
  info = λ output s. (l.info output s.0, s.1);
  error = λ output s. (l.error output s.0, s.1);
  close = λ s. let r = l.close s.0 in (r.0, (r.1, s.1));
  write = λ p s. let r = l.write p s.0 in (r.0, (r.1, s.1));
}

unfoldable pub on_stderr : Logger (Option (List JsonLog)) → Logger State
on_stderr l = record {
  info = λ output s. (s.0, l.info output s.1);
  error = λ output s. (s.0, l.error output s.1);
  close = λ s. let r = l.close s.1 in (r.0, (s.0, r.1));
  write = λ p s. let r = l.write p s.1 in (r.0, (s.0, r.1));
}

module _ (h : Host) (api : Api) (e : Encoder) (f : Options) where
  base_log : Logger State
  base_log = if f.no_startup_logs then nop_logger else on_stderr (json_logger e)

  -- The log of the command, `none` where the client of the API needs more tries than the fuel.
  pub open_blog : ℕ → State → Option (Result (Logger State) × State)
  unfolding base_log on_api on_stderr
  open_blog fuel s =
      if not f.no_startup_logs && not (same f.cvm.agent_token []) && not (same f.coder_url [])
      then elim (h.parse_url f.coder_url) [
        | some x ↦ some (err (wrap (codes "parse coder URL " ++ quote f.coder_url) x), s)
        | none ↦ elim (open_coder_client api fuel s.0) [
          | none ↦ none
          | some (err x, t) ↦ some (
            ok base_log,
            (
              t
                  ++ log_error
                      (codes "failed to instantiate coder build log client, no logs will be pushed")
                    ∷ [],
              s.1,
            ),
          )
          | some (ok agent, t) ↦
              some (ok (multi_logger (on_api (open_coder_logger agent) ∷ base_log ∷ [])), (t, s.1))
        ]
      ]
      else some (ok base_log, s)

-- The deferred calls, in the order in which they run, for the error of the command.
unfoldable pub finish_blog : {S : Type 0} → Logger S → Option Error → S → S
finish_blog l none s = (l.close s).1
finish_blog l (some x) s = (l.close (l.error (codes "Failed to run envbox: " ++ x.text) s)).1

-- `io.ErrShortWrite`
abbrev pub err_short_write : Error
err_short_write = record { cause = codes "short write"; text = codes "short write" }

-- io's error for a writer that takes more than it was given
abbrev pub err_invalid_write : Error
err_invalid_write = failure (codes "invalid write result")

module _ {S : Type 0} (l : Logger S) where
  -- `io.Copy` from an `io.LimitReader` with so many bytes left, whose reader gives the pieces and then the
  -- error or the end.
  pub copy_loop : ℕ → List Bytes → Option Error → S → Option Error × S
  copy_loop zero pieces failed s = (none, s)
  copy_loop (suc left) [] failed s = (failed, s)
  copy_loop (suc left) (piece ∷ pieces) failed s =
      let p = take (suc left) piece in
      elim (length p == 0) [
        | true ↦ copy_loop (suc left) pieces failed s
        | false ↦
            let (r, s') = l.write p s in
            elim r.1 [
              | some x ↦ (some x, s')
              | none ↦ elim (r.0 == length p) [
                | false ↦
                    (some (if ltb (length p) r.0 then err_invalid_write else err_short_write), s')
                | true ↦ copy_loop (suc left - length p) pieces failed s'
              ]
            ]
      ]

  pub copy_output : List Bytes → Option Error → S → Option Error × S
  unfolding copy_loop
  copy_output = copy_loop 1024
