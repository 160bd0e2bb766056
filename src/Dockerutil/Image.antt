-- ===== src/Dockerutil/Image.antt =====
-- dockerutil/image.go: `PullImage` and `processImagePullEvents`, with `IsNoSpaceErr` of xunix/error.go.
--
-- `World` is the state of everything outside: the daemon, the log, the clock. A stream of events is what
-- the JSON decoder makes of the daemon's answer: messages, each with the fields it has, and how it ends.
pub mod Pull
pub mod Events
pub mod Keeps
pub mod Progress
mod Tests
use envbox.Prelude.{
  ℕ, zero, suc, Bool, true, false, not, ◌&&◌, ◌||◌, List, [], ◌∷◌, ◌++◌, Option, none, some, Bytes,
  codes, contains, to_lower, Error, wrap, Result, ok, err, if◌then◌else◌,
}

pub record ImagePullEvent : Type 0 where
  pub status : Bytes
  pub error : Bytes
  pub progress : Bytes
  pub current : ℕ
  pub total : ℕ

-- A JSON message: a field that it lacks is `none`.
pub record Message : Type 0 where
  pub status : Option Bytes
  pub error : Option Bytes
  pub progress : Option Bytes
  pub current : Option ℕ
  pub total : Option ℕ

-- The value of a field, or the one before where the message lacks it.
abbrev pub set_to {ℓ} : {A : Type ℓ} → A → Option A → A
set_to old none = old
set_to old (some new) = new

-- `decoder.Decode(&event)` sets the fields of the message and leaves the others as they are.
unfoldable pub decode_into : ImagePullEvent → Message → ImagePullEvent
decode_into event m = record {
  status = set_to event.status m.status;
  error = set_to event.error m.error;
  progress = set_to event.progress m.progress;
  current = set_to event.current m.current;
  total = set_to event.total m.total;
}

abbrev pub zero_event : ImagePullEvent
zero_event = record { status = []; error = []; progress = []; current = 0; total = 0 }

-- The messages, and the error behind them unless it is `io.EOF`.
pub record Stream : Type 0 where
  pub messages : List Message
  pub failed : Option Error

-- `xunix.IsNoSpaceErr` of an error that is not nil
unfoldable pub is_no_space_err : Error → Bool
is_no_space_err e = contains (to_lower e.text) (codes "no space left on device")

unfoldable pub is_tls_verification_err : Error → Bool
is_tls_verification_err e =
    contains e.text
      (codes "tls: failed to verify certificate: x509: certificate signed by unknown authority")

module _ {World : Type 0} where
  -- The loop of `processImagePullEvents`, which decodes every message into one event.
  pub event_loop :
      (ImagePullEvent → World → Option Error × World)
      → Option Error
      → List Message
      → ImagePullEvent
      → World
      → Option Error × World
  event_loop fn none [] event w = (none, w)
  event_loop fn (some e) [] event w = (some (wrap (codes "decode image pull output") e), w)
  event_loop fn failed (m ∷ ms) event w =
      let event' = decode_into event m in
      let (r, w') = fn event' w in
      elim r [
        | some e ↦ (some (wrap (codes "process image pull event") e), w')
        | none ↦ event_loop fn failed ms event' w'
      ]

  -- `none` for the function is nil: the stream is only read to its end.
  pub process_image_pull_events :
      Stream → Option (ImagePullEvent → World → Option Error × World) → World → Option Error × World
  unfolding event_loop
  process_image_pull_events rd none w = (none, w)
  process_image_pull_events rd (some fn) w = event_loop fn rd.failed rd.messages zero_event w

pub record PullImageConfig (World : Type 0) : Type 0 where
  pub auth_base64 : Result Bytes
  -- `Client.ImagePull` with the encoded credentials
  pub image_pull : Bytes → World → Result Stream × World
  pub progress_fn : Option (ImagePullEvent → World → Option Error × World)
  -- `PruneImages`, whose result is ignored
  pub prune_images : World → World
  -- What `r.Wait(ctx)` answers when it is called for the `n`-th time.
  pub wait : ℕ → Bool

module _ {World : Type 0} (config : PullImageConfig World) where
  pub pull_image_fn : Bytes → World → Option Error × World
  pull_image_fn auth_str w =
      let (rd, w') = config.image_pull auth_str w in
      elim rd [
        | err e ↦ (some (wrap (codes "pull image") e), w')
        | ok stream ↦
            let (r, w'') = process_image_pull_events stream config.progress_fn w' in
            elim r [
              | some e ↦ (some (wrap (codes "process image pull events") e), w'')
              | none ↦ (none, w'')
            ]
      ]

  -- The retries: `left` of them are left after `n`, and `e` is the error of the last try.
  pub pull_retries : Bytes → ℕ → ℕ → Bool → Error → World → Option Error × World
  pull_retries auth_str zero n pruned e w = (some (wrap (codes "pull image") e), w)
  pull_retries auth_str (suc left) n pruned e w = elim (config.wait n) [
    | false ↦ (some (wrap (codes "pull image") e), w)
    | true ↦
        let (r, w') = pull_image_fn auth_str w in
        elim r [
          | none ↦ (none, w')
          | some e' ↦
              let now = is_no_space_err e' && not pruned in
              let pruned' = pruned || now in
              let w'' = if now then config.prune_images w' else w' in
              elim (is_no_space_err e' && pruned') [
                | true ↦ (some (wrap (codes "insufficient disk to pull image") e'), w'')
                | false ↦ pull_retries auth_str left (suc n) pruned' e' w''
              ]
        ]
  ]

  pub pull_image : World → Option Error × World
  unfolding pull_image_fn pull_retries
  pull_image w = elim config.auth_base64 [
    | err e ↦ (some (wrap (codes "base64 encode auth") e), w)
    | ok auth_str ↦
        let (r, w') = pull_image_fn auth_str w in
        elim r [
          | none ↦ (none, w')
          | some e ↦ elim (is_tls_verification_err e) [
            | true ↦ (some e, w')
            | false ↦ pull_retries auth_str 10 0 false e w'
          ]
        ]
  ]
