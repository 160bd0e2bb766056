-- ===== src/Dockerutil/Image/Tests.antt =====
-- Runs of `PullImage`, and the theorems of dockerutil/image.go at concrete daemons.
use envbox.Prelude.{
  ℕ, ◌+◌, ◌≡◌, refl, Bool, true, false, List, [], ◌∷◌, ◌++◌, Option, none, some, Bytes, Error,
  failure, codes, ok, err, arith, wrap, if◌then◌else◌, ltb, contains, to_lower, has_prefix,
}
use envbox.Dockerutil.Image.{
  PullImageConfig, ImagePullEvent, Message, Stream, pull_image, pull_image_fn, is_no_space_err,
  is_tls_verification_err, process_image_pull_events, event_loop, decode_into,
}
use envbox.Dockerutil.Image.Pull.{Outcome, here, again, pull_image-Outcome, pull_image-Retried}
use envbox.Dockerutil.Image.Events.{process_image_pull_events_lem, report, events_of}

abbrev message : Bytes → Option Bytes → Message
message status progress = record {
  status = some status;
  error = none;
  progress = progress;
  current = none;
  total = none;
}

-- Pulls made, and whether the images were pruned.
abbrev Pulls : Type 0
Pulls = ℕ × Bool

-- A daemon whose first `n` pulls fail with the error, and whose pulls succeed after that.
abbrev daemon : ℕ → Error → PullImageConfig Pulls
daemon n e = record {
  auth_base64 = ok (codes "e30=");
  image_pull = λ auth d.
      (if ltb d.0 n then err e else ok (record { messages = []; failed = none }), (d.0 + 1, d.1));
  progress_fn = none;
  prune_images = λ d. (d.0, true);
  wait = λ n. true;
}

abbrev full : Error
full = failure (codes "write: No space left on device")

abbrev reset : Error
reset = failure (codes "connection reset")

-- The disk is full at the first two pulls: the images are pruned, and the third pull is never made.
pull_after_prune : (pull_image (daemon 2 full) (0, false)).1 ≡ (2, true)
unfolding pull_image is_tls_verification_err contains wrap is_no_space_err to_lower
pull_after_prune = refl

pull_image-Outcome_example :
    Outcome (daemon 2 full) (codes "e30=") (0, false) (pull_image (daemon 2 full) (0, false))
pull_image-Outcome_example = pull_image-Outcome (daemon 2 full) (codes "e30=") (0, false) refl

abbrev failed_pull : Error
failed_pull = wrap (codes "pull image") reset

pull_image-Retried_example : pull_image (daemon 2 reset) (0, false) ≡ (none, (3, false))
unfolding pull_image_fn is_no_space_err is_tls_verification_err contains to_lower has_prefix wrap
    process_image_pull_events
pull_image-Retried_example =
    pull_image-Retried (daemon 2 reset) (codes "e30=") (0, false) failed_pull refl (λ i. refl) refl
      refl (again failed_pull refl refl here) (omega arith) refl

-- The function that keeps the events.
abbrev keep : ImagePullEvent → List ImagePullEvent → Option Error × List ImagePullEvent
keep event seen = (none, seen ++ event ∷ [])

abbrev layer : Stream
layer = record {
  messages =
      message (codes "Downloading") (some (codes "[==>]"))
      ∷ message (codes "Pull complete") none
      ∷ [];
  failed = none;
}

process_image_pull_events_lem_example :
    process_image_pull_events layer (some keep) []
    ≡ report keep none (events_of [] layer.messages) []
process_image_pull_events_lem_example = process_image_pull_events_lem keep layer []

-- The second event still has the progress of the first.
stale_progress : process_image_pull_events layer (some keep) [] ≡ (
  none,
  record {
    status = codes "Downloading";
    error = [];
    progress = codes "[==>]";
    current = 0;
    total = 0;
  }
      ∷ record {
        status = codes "Pull complete";
        error = [];
        progress = codes "[==>]";
        current = 0;
        total = 0;
      }
      ∷ [],
)
unfolding process_image_pull_events event_loop decode_into
stale_progress = refl
