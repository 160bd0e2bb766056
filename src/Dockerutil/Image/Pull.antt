-- ===== src/Dockerutil/Image/Pull.antt =====
-- `PullImage` of dockerutil/image.go: how often it pulls, when it prunes, and what it returns.
use mathlib.Core.Path.{subst}
use envbox.Prelude.{
  ℕ, zero, suc, ◌+◌, ◌≤◌, ◌<◌, ◌≡◌, refl, sym, ◌∙◌, ◌⊎◌, true, false, Option, none, some, Bytes,
  codes, Error, wrap, ok, arith, Bool-cases, inl, inr,
}
use envbox.Dockerutil.Image.{
  PullImageConfig, pull_image_fn, pull_retries, pull_image, is_no_space_err,
  is_tls_verification_err,
}

module _ {World : Type 0} (config : PullImageConfig World) (auth_str : Bytes) where
  -- `k` pulls that failed, one behind the other.
  pub data Failures (w : World) : ℕ → World → Type 0 where
    nothing : Failures w 0 w
    failure :
        {k : ℕ} {w₁ w₂ : World} (e : Error)
        → Failures w k w₁
        → pull_image_fn config auth_str w₁ ≡ (some e, w₂)
        → Failures w (suc k) w₂

  -- The ways for a pull with retries to end.
  pub data Outcome (w : World) : Option Error × World → Type 0 where
    -- at most ten pulls failed, and the next did not
    pulled :
        {k : ℕ} {w₁ w₂ : World}
        → Failures w k w₁
        → k ≤ 10
        → pull_image_fn config auth_str w₁ ≡ (none, w₂)
        → Outcome w (none, w₂)
    -- one to eleven pulls failed, and nothing was pruned
    gave_up :
        {k : ℕ} {w₁ : World} (e : Error) → Failures w k w₁ → 1 ≤ k → k ≤ 11 → Outcome w (some e, w₁)
    -- two to eleven pulls failed, the last for want of space, and to prune was the last thing done
    pruned :
        {k : ℕ} {w₁ : World} (e : Error)
        → is_no_space_err e ≡ true
        → Failures w k w₁
        → 2 ≤ k
        → k ≤ 11
        → Outcome w
            (some (wrap (codes "insufficient disk to pull image") e), config.prune_images w₁)

  pull_cases :
      (w : World)
      → ((w' : World) × (pull_image_fn config auth_str w ≡ (none, w')))
        ⊎ ((e : Error) × (w' : World) × (pull_image_fn config auth_str w ≡ (some e, w')))
  pull_cases w = cases (pull_image_fn config auth_str w)
    where
      cases :
          (r : Option Error × World)
          → ((w' : World) × (r ≡ (none, w'))) ⊎ ((e : Error) × (w' : World) × (r ≡ (some e, w')))
      cases (none, w') = inl (w', refl)
      cases (some e, w') = inr (e, w', refl)

  -- One round of the loop.
  module _ (left n : ℕ) (e : Error) (w : World) where
    retry_stop :
        config.wait n ≡ false
        → pull_retries config auth_str (suc left) n false e w
          ≡ (some (wrap (codes "pull image") e), w)
    unfolding pull_retries
    retry_stop stop = rw (stop, pull_retries)

    module _ (go : config.wait n ≡ true) where
      retry_done :
          (w' : World)
          → pull_image_fn config auth_str w ≡ (none, w')
          → pull_retries config auth_str (suc left) n false e w ≡ (none, w')
      unfolding pull_retries
      retry_done w' done = rw (go, pull_retries, done, done)

      retry_prune :
          (e' : Error) (w' : World)
          → pull_image_fn config auth_str w ≡ (some e', w')
          → is_no_space_err e' ≡ true
          → pull_retries config auth_str (suc left) n false e w
            ≡ (some (wrap (codes "insufficient disk to pull image") e'), config.prune_images w')
      unfolding pull_retries
      retry_prune e' w' failed full = rw (go, pull_retries, failed, full, failed, full)

      retry_more :
          (e' : Error) (w' : World)
          → pull_image_fn config auth_str w ≡ (some e', w')
          → is_no_space_err e' ≡ false
          → pull_retries config auth_str (suc left) n false e w
            ≡ pull_retries config auth_str left (suc n) false e' w'
      unfolding pull_retries
      retry_more e' w' failed other = rw (go, pull_retries, failed, other, failed, other)

  pull_retries-Outcome :
      (w₀ : World) (left n k : ℕ) (e : Error) (w : World)
      → Failures w₀ k w
      → 1 ≤ k
      → k + left ≡ 11
      → Outcome w₀ (pull_retries config auth_str left n false e w)
  unfolding pull_retries
  pull_retries-Outcome w₀ zero n k e w failed lo total =
      gave_up (wrap (codes "pull image") e) failed lo (omega arith)
  pull_retries-Outcome w₀ (suc left) n k e w failed lo total = elim (Bool-cases (config.wait n)) [
    | inr stop ↦
        subst (Outcome w₀) (sym (retry_stop left n e w stop))
          (gave_up (wrap (codes "pull image") e) failed lo (omega arith))
    | inl go ↦ elim (pull_cases w) [
      | inl (w', done) ↦
          subst (Outcome w₀) (sym (retry_done left n e w go w' done))
            (pulled failed (omega arith) done)
      | inr (e', w', again) ↦ elim (Bool-cases (is_no_space_err e')) [
        | inl full ↦
            subst (Outcome w₀) (sym (retry_prune left n e w go e' w' again full))
              (pruned e' full (failure e' failed again) (omega arith) (omega arith))
        | inr other ↦ subst (Outcome w₀) (sym (retry_more left n e w go e' w' again other)) (
            pull_retries-Outcome w₀ left (suc n) (suc k) e' w' (failure e' failed again)
              (omega arith) (omega arith))
      ]
    ]
  ]

  -- `k` pulls that fail, from one world to another, none of them for want of space.
  pub data Retried : ℕ → World → World → Type 0 where
    here : {w : World} → Retried 0 w w
    again :
        {k : ℕ} {w w₁ w₂ : World} (e : Error)
        → pull_image_fn config auth_str w ≡ (some e, w₁)
        → is_no_space_err e ≡ false
        → Retried k w₁ w₂
        → Retried (suc k) w w₂

  pull_retries-Retried :
      (left n : ℕ) (e : Error) {k : ℕ} {w w₁ w₂ : World}
      → ((i : ℕ) → config.wait i ≡ true)
      → Retried k w w₁
      → k < left
      → pull_image_fn config auth_str w₁ ≡ (none, w₂)
      → pull_retries config auth_str left n false e w ≡ (none, w₂)
  pull_retries-Retried zero n e waits failed lt done = absurd (omega arith)
  pull_retries-Retried (suc left) n e {w₂ = w₂} waits (here {w}) lt done =
      retry_done left n e w (waits n) w₂ done
  pull_retries-Retried (suc left) n e waits (again {w = w} {w₁ = w₁} e' failed other rest) lt done =
      retry_more left n e w (waits n) e' w₁ failed other
      ∙ pull_retries-Retried left (suc n) e' waits rest (omega arith) done

module _ {World : Type 0} (config : PullImageConfig World) (auth_str : Bytes) (w : World) where
  pull_image_first :
      (e : Error) (w' : World)
      → config.auth_base64 ≡ ok auth_str
      → pull_image_fn config auth_str w ≡ (some e, w')
      → is_tls_verification_err e ≡ false
      → pull_image config w ≡ pull_retries config auth_str 10 0 false e w'
  unfolding pull_image
  pull_image_first e w' auth failed other = rw (pull_image, auth, failed, other, failed)

  pull_image_tls :
      (e : Error) (w' : World)
      → config.auth_base64 ≡ ok auth_str
      → pull_image_fn config auth_str w ≡ (some e, w')
      → is_tls_verification_err e ≡ true
      → pull_image config w ≡ (some e, w')
  unfolding pull_image
  pull_image_tls e w' auth failed tls = rw (pull_image, auth, failed, tls, failed)

  pull_image_done :
      (w' : World)
      → config.auth_base64 ≡ ok auth_str
      → pull_image_fn config auth_str w ≡ (none, w')
      → pull_image config w ≡ (none, w')
  unfolding pull_image
  pull_image_done w' auth done = rw (pull_image, auth, done, done)

-- With credentials that encode, `PullImage` ends in one of three ways. It returns nil, and its last
-- pull, behind ten failed ones at most, succeeded. It returns an error after one to eleven failed
-- pulls and without pruning. Or it returns that the disk is full after two to eleven failed pulls,
-- the last for want of space, and to prune the images was the last thing that it did: no pull follows.
pub pull_image-Outcome :
    {World : Type 0} (config : PullImageConfig World) (auth_str : Bytes) (w : World)
    → config.auth_base64 ≡ ok auth_str
    → Outcome config auth_str w (pull_image config w)
pull_image-Outcome config auth_str w auth = elim (pull_cases config auth_str w) [
  | inl (w', done) ↦
      subst (Outcome config auth_str w) (sym (pull_image_done config auth_str w w' auth done))
        (pulled nothing (omega arith) done)
  | inr (e, w', failed) ↦ elim (Bool-cases (is_tls_verification_err e)) [
    | inl tls ↦
        subst (Outcome config auth_str w)
          (sym (pull_image_tls config auth_str w e w' auth failed tls))
          (gave_up e (failure e nothing failed) (omega arith) (omega arith))
    | inr other ↦
        subst (Outcome config auth_str w)
          (sym (pull_image_first config auth_str w e w' auth failed other))
          (pull_retries-Outcome config auth_str w 10 0 1 e w' (failure e nothing failed)
            (omega arith) (omega arith))
  ]
]

-- With credentials that encode and a context that stays open, `PullImage` succeeds if a pull fails
-- with no certificate error, at most nine more fail with no want of space, and the next succeeds.
pub pull_image-Retried :
    {World : Type 0} (config : PullImageConfig World) (auth_str : Bytes) {k : ℕ} (w : World)
    {w₁ w₂ w₃ : World} (e : Error)
    → config.auth_base64 ≡ ok auth_str
    → ((i : ℕ) → config.wait i ≡ true)
    → pull_image_fn config auth_str w ≡ (some e, w₁)
    → is_tls_verification_err e ≡ false
    → Retried config auth_str k w₁ w₂
    → k ≤ 9
    → pull_image_fn config auth_str w₂ ≡ (none, w₃)
    → pull_image config w ≡ (none, w₃)
pull_image-Retried config auth_str w {w₁ = w₁} e auth waits failed other retried le done =
    pull_image_first config auth_str w e w₁ auth failed other
    ∙ pull_retries-Retried config auth_str 10 0 e waits retried (omega arith) done
