-- ===== src/Dockerutil/Image/Progress/Tests.antt =====
-- The rate of the log at a concrete stream.
use envbox.Prelude.{
  ℕ, zero, suc, true, ok, ◌+◌, ◌*◌, ◌≡◌, refl, List, [], ◌∷◌, none, some, Bytes, codes, wrap,
  failure, length, same,
}
use envbox.Dockerutil.Image.{
  Message, Stream, PullImageConfig, process_image_pull_events, event_loop, decode_into,
}
use envbox.Dockerutil.Image.Progress.{
  Call, now, info, errorf, Progress, since, message_of, log_image_pull, zero_progress,
}
use envbox.Dockerutil.Image.Progress.Rate.{on_progress}

abbrev message : Bytes → Bytes → Message
message status progress = record {
  status = some status;
  error = none;
  progress = some progress;
  current = none;
  total = none;
}

-- A stream of four messages.
abbrev layers : Stream
layers = record {
  messages =
      message (codes "Pulling") []
      ∷ message (codes "Downloading") (codes "1MB")
      ∷ message (codes "Downloading") (codes "2MB")
      ∷ message (codes "Extracting") (codes "1MB")
      ∷ [];
  failed = none;
}

-- A clock that goes on by seven tenths of a second with each call, from five seconds on.
abbrev tick : List Call → ℕ
tick cs = 5000000000 + 700000000 * length cs

-- The fourth message comes two seconds behind the first line, and is the second to be written.
progress_run :
    (process_image_pull_events layers (some (log_image_pull tick)) zero_progress).1.calls
    ≡ now 9900000000
      ∷ info (codes "Extracting: 1MB")
      ∷ now 8500000000
      ∷ now 7800000000
      ∷ now 7100000000
      ∷ now 6400000000
      ∷ info (codes "Pulling")
      ∷ now 5000000000
      ∷ []
unfolding process_image_pull_events event_loop decode_into log_image_pull since message_of same
progress_run = refl

-- A message with an error is logged, and ends the pull.
abbrev denied : Stream
denied = record {
  messages = record (message (codes "Pulling") []) { error = some (codes "denied") } ∷ [];
  failed = none;
}

denied_run : process_image_pull_events denied (some (log_image_pull tick)) zero_progress ≡ (
  some (wrap (codes "process image pull event") (failure (codes "pull image: denied"))),
  record { last_log = 0; calls = errorf (codes "denied") ∷ [] },
)
unfolding process_image_pull_events event_loop decode_into log_image_pull since message_of same
denied_run = refl

-- The daemon breaks the first stream off, and gives the layers at the second pull. The number of pulls is
-- beside the state of the function.
abbrev broken_off : Stream
broken_off = record { messages = []; failed = some (failure (codes "unexpected EOF")) }

abbrev registry : PullImageConfig (Progress × ℕ)
registry = record {
  auth_base64 = ok (codes "e30=");
  image_pull = λ auth w. (ok (elim w.1 [ zero ↦ broken_off | suc n ↦ layers ]), (w.0, suc w.1));
  progress_fn = some (on_progress tick);
  prune_images = λ w. w;
  wait = λ n. true;
}
