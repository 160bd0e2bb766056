-- ===== src/Dockerutil/Image/Progress/Rate.antt =====
-- How often `DefaultLogImagePullFn` of dockerutil/image.go writes a line.
use envbox.Prelude.{ℕ, suc, ◌+◌, ◌≤◌, ◌<◌, ◌≡◌, Bytes, Option, Error, some, List, [], ◌∷◌}
use envbox.Dockerutil.Image.{ImagePullEvent, PullImageConfig}
use envbox.Dockerutil.Image.Keeps.{Keeps}
use envbox.Dockerutil.Image.Progress.{Call, now, info, errorf, Progress, log_image_pull}

-- Two seconds in nanoseconds.
abbrev pub two_seconds : ℕ
two_seconds = 2000000000

-- The calls that leave the variable `lastLog` at the time. A reading of the clock less than two seconds behind the
-- time of the last line is all there is to an event. Any later one is followed by a line, and then by the
-- reading that is the new time. An error is a line at any time.
pub data Logged : ℕ → List Call → Type 0 where
  start : Logged 0 []
  passed :
      {last t : ℕ} {cs : List Call}
      → Logged last cs
      → t < last + two_seconds
      → Logged last (now t ∷ cs)
  failed : {last : ℕ} {x : List ℕ} {cs : List Call} → Logged last cs → Logged last (errorf x ∷ cs)
  logged :
      {last t t' : ℕ} {x : List ℕ} {cs : List Call}
      → Logged last cs
      → last + two_seconds ≤ t
      → t ≤ t'
      → Logged t' (now t' ∷ info x ∷ now t ∷ cs)

-- The clock does not go back.
abbrev pub Monotone : (List Call → ℕ) → Type 0
Monotone clock = (c : Call) (cs : List Call) → clock cs ≤ clock (c ∷ cs)

-- The lines written that are no errors.
abbrev pub infos : List Call → ℕ
infos [] = 0
infos (now t ∷ cs) = infos cs
infos (info x ∷ cs) = suc (infos cs)
infos (errorf x ∷ cs) = infos cs

-- The function on a world that has its state beside the rest.
abbrev pub on_progress :
    {W : Type 0} → (List Call → ℕ) → ImagePullEvent → Progress × W → Option Error × (Progress × W)
on_progress clock e (p, w) = let r = log_image_pull clock e p in (r.0, (r.1, w))

-- A pull that reports to the function, whose state nothing else changes.
pub record IsLogged {W : Type 0} (clock : List Call → ℕ) (config : PullImageConfig (Progress × W))
    : Type 0 where
  pub fn_lem : config.progress_fn ≡ some (on_progress clock)
  pub pull_lem : (auth : Bytes) (w : Progress × W) → (config.image_pull auth w).1.0 ≡ w.0
  pub prune_lem : (w : Progress × W) → (config.prune_images w).0 ≡ w.0

module _ {W : Type 0} (clock : List Call → ℕ) (monotone : Monotone clock)
    (config : PullImageConfig (Progress × W)) (is_logged : IsLogged clock config) where
  abbrev InOrder : Progress × W → Type 0
  InOrder w = Logged w.0.last_log w.0.calls

-- All readings of the clock lie between the two times.
abbrev pub Within : ℕ → ℕ → List Call → Type 0
Within a b [] = Unit
Within a b (now t ∷ cs) = (a ≤ t) × (t ≤ b) × Within a b cs
Within a b (info x ∷ cs) = Within a b cs
Within a b (errorf x ∷ cs) = Within a b cs
