-- ===== src/Dockerutil/Image/Keeps.antt =====
-- What stays true of the world while `PullImage` of dockerutil/image.go runs.
use envbox.Prelude.{
  ℕ, zero, suc, Bool, true, false, not, ◌&&◌, ◌||◌, Bytes, Error, Result-cases, Option-cases,
  Bool-cases, inl, inr, if◌then◌else◌,
}
use envbox.Dockerutil.Image.{
  Stream, PullImageConfig, process_image_pull_events, pull_image_fn, pull_retries, pull_image,
  is_no_space_err, is_tls_verification_err,
}

-- The steps of a pull keep the property.
pub record Keeps {World : Type 0} (config : PullImageConfig World) (P : World → Type 0)
    : Type 0 where
  pub pulls : (auth : Bytes) (w : World) → P w → P (config.image_pull auth w).1
  pub events :
      (rd : Stream) (w : World) → P w → P (process_image_pull_events rd config.progress_fn w).1
  pub prunes : (w : World) → P w → P (config.prune_images w)

module _ {World : Type 0} (config : PullImageConfig World) (P : World → Type 0)
    (keeps : Keeps config P) where
  pull_image_fn_keeps : (auth : Bytes) (w : World) → P w → P (pull_image_fn config auth w).1
  unfolding pull_image_fn
  pull_image_fn_keeps auth w h = elim (Result-cases (config.image_pull auth w).0) [
    | inr (e, failed) ↦ rw (pull_image_fn, failed) (keeps.pulls auth w h)
    | inl (rd, opened) ↦
        let w' = (config.image_pull auth w).1 in
        let done = keeps.events rd w' (keeps.pulls auth w h) in
        elim (Option-cases (process_image_pull_events rd config.progress_fn w').0) [
          | inl fine ↦ rw (pull_image_fn, opened, fine) done
          | inr (e, failed) ↦ rw (pull_image_fn, opened, failed) done
        ]
  ]

  pruned_keeps : (now : Bool) (w : World) → P w → P (if now then config.prune_images w else w)
  pruned_keeps true w h = keeps.prunes w h
  pruned_keeps false w h = h

  pull_retries_keeps :
      (auth : Bytes) (left n : ℕ) (pruned : Bool) (e : Error) (w : World)
      → P w
      → P (pull_retries config auth left n pruned e w).1
  unfolding pull_retries
  pull_retries_keeps auth zero n pruned e w h = h
  pull_retries_keeps auth (suc left) n pruned e w h = elim (Bool-cases (config.wait n)) [
    | inr over ↦ rw (pull_retries, over) h
    | inl go ↦
        let pulled = pull_image_fn_keeps auth w h in
        elim (Option-cases (pull_image_fn config auth w).0) [
          | inl fine ↦ rw (pull_retries, go, fine) pulled
          | inr (x, failed) ↦
              let now = is_no_space_err x && not pruned in
              let kept = pruned_keeps now (pull_image_fn config auth w).1 pulled in
              elim (Bool-cases (is_no_space_err x && (pruned || now))) [
                | inl stop ↦ rw (pull_retries, go, failed, stop) kept
                | inr more ↦
                    rw (pull_retries, go, failed, more)
                      (pull_retries_keeps auth left (suc n) (pruned || now) x _ kept)
              ]
        ]
  ]

  pub pull_image_keeps : (w : World) → P w → P (pull_image config w).1
  unfolding pull_image
  pull_image_keeps w h = elim (Result-cases config.auth_base64) [
    | inr (e, failed) ↦ rw (pull_image, failed) h
    | inl (auth, encoded) ↦
        let pulled = pull_image_fn_keeps auth w h in
        elim (Option-cases (pull_image_fn config auth w).0) [
          | inl fine ↦ rw (pull_image, encoded, fine) pulled
          | inr (e, failed) ↦ elim (Bool-cases (is_tls_verification_err e)) [
            | inl tls ↦ rw (pull_image, encoded, failed, tls) pulled
            | inr other ↦
                rw (pull_image, encoded, failed, other)
                  (pull_retries_keeps auth 10 0 false e _ pulled)
          ]
        ]
  ]
