-- ===== src/Dockerutil/Image/Progress.antt =====
-- `DefaultLogImagePullFn` of dockerutil/image.go.
--
-- Times are nanoseconds from Go's zero time. The calls of the clock and of the logger are listed with
-- the last one first, and the clock answers in view of the calls before it.
pub mod Rate
mod Tests
use envbox.Prelude.{
  ℕ, ◌-◌, ◌^◌, min, Bool, true, false, List, [], ◌∷◌, ◌++◌, Option, none, some, Bytes, codes, same,
  ltb, Error, failure, if◌then◌else◌,
}
use envbox.Dockerutil.Image.{ImagePullEvent}

pub data Call : Type 0 where
  now : ℕ → Call
  info : Bytes → Call
  -- `Errorf` with the text as the format and no arguments
  errorf : Bytes → Call

-- `lastLog`, and the calls so far.
pub record Progress : Type 0 where
  pub last_log : ℕ
  pub calls : List Call

-- `time.Second * 2`
abbrev pub delay_dur : ℕ
delay_dur = 2000000000

-- The greatest `time.Duration`, where `time.Since` stops.
abbrev pub max_duration : ℕ
max_duration = 9223372036854775807

-- `time.Since`, which is at most 0 where the clock is behind the time.
unfoldable pub since : ℕ → ℕ → ℕ
since t last = min (t - last) max_duration

-- The text that is logged.
unfoldable pub message_of : ImagePullEvent → Bytes
message_of e = if same e.progress [] then e.status else e.status ++ codes ": " ++ e.progress

-- `lastLog` before the first event.
abbrev pub zero_progress : Progress
zero_progress = record { last_log = 0; calls = [] }

unfoldable pub log_image_pull :
    (List Call → ℕ) → ImagePullEvent → Progress → Option Error × Progress
unfolding since message_of
log_image_pull clock e p =
    let read = now (clock p.calls) ∷ p.calls in
    let written = info (message_of e) ∷ read in
    elim (same e.error []) [
      | false ↦ (
        some (failure (codes "pull image: " ++ e.error)),
        record p { calls = errorf e.error ∷ p.calls },
      )
      | true ↦ elim (ltb (since (clock p.calls) p.last_log) delay_dur) [
        | true ↦ (none, record p { calls = read })
        | false ↦ (none, record { last_log = clock written; calls = now (clock written) ∷ written })
      ]
    ]
