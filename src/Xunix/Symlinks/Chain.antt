-- ===== src/Xunix/Symlinks/Chain.antt =====
-- `recursiveSymlinks` of xunix/gpu.go: where its paths lie, and when it ends.
use mathlib.Core.Path.{subst}
use envbox.Prelude.{
  ℕ, zero, suc, ◌≤◌, ◌≡◌, ◌⊎◌, refl, sym, ap, ◌∙◌, true, false, List, [], ◌∷◌, ◌++◌, Option, none,
  some, Bytes, Error, Result, ok, err, has_prefix, arith, Bool-cases, inl, inr, append_assoc,
  length,
}
use envbox.Xunix.Symlinks.{Links, with_slash, follow, follow_links, recursive_symlinks}

module _ (fs : Links) where
  -- The links from a path to the end of its chain, all below the mountpoint.
  pub data Chain (mountpoint : Bytes) : Bytes → List Bytes → Type 0 where
    end :
        {path : Bytes}
        → has_prefix path mountpoint ≡ true
        → follow fs path ≡ ok none
        → Chain mountpoint path (path ∷ [])
    link :
        {path next : Bytes} {rest : List Bytes}
        → has_prefix path mountpoint ≡ true
        → follow fs path ≡ ok (some next)
        → Chain mountpoint next rest
        → Chain mountpoint path (path ∷ rest)

  -- The three things that a round can find.
  follow-cases :
      (path : Bytes)
      → ((e : Error) × (follow fs path ≡ err e))
        ⊎ ((follow fs path ≡ ok none) ⊎ ((next : Bytes) × (follow fs path ≡ ok (some next))))
  follow-cases path = cases (follow fs path)
    where
      cases :
          (r : Result (Option Bytes))
          → ((e : Error) × (r ≡ err e)) ⊎ ((r ≡ ok none) ⊎ ((next : Bytes) × (r ≡ ok (some next))))
      cases (err e) = inl (e, refl)
      cases (ok none) = inr (inl refl)
      cases (ok (some next)) = inr (inr (next, refl))

  -- What the loop returns with the paths so far, if it ends without an error.
  Returned : Bytes → Bytes → List Bytes → List Bytes → Type 0
  Returned mountpoint path paths out =
      (out ≡ []) ⊎ ((rest : List Bytes) × (out ≡ paths ++ rest) × Chain mountpoint path rest)

  module _ (fuel : ℕ) (mountpoint path : Bytes) (paths : List Bytes) where
    round_outside :
        has_prefix path mountpoint ≡ false
        → follow_links fs (suc fuel) mountpoint path paths ≡ some (ok [])
    unfolding follow_links
    round_outside outside = rw (outside, follow_links)

    module _ (inside : has_prefix path mountpoint ≡ true) where
      round_failed :
          (e : Error)
          → follow fs path ≡ err e
          → follow_links fs (suc fuel) mountpoint path paths ≡ some (err e)
      unfolding follow_links
      round_failed e failed = rw (inside, failed, follow_links)

      round_last :
          follow fs path ≡ ok none
          → follow_links fs (suc fuel) mountpoint path paths ≡ some (ok (paths ++ path ∷ []))
      unfolding follow_links
      round_last last = rw (inside, last, follow_links)

      round_more :
          (next : Bytes)
          → follow fs path ≡ ok (some next)
          → follow_links fs (suc fuel) mountpoint path paths
            ≡ follow_links fs fuel mountpoint next (paths ++ path ∷ [])
      unfolding follow_links
      round_more next more = rw (inside, more, follow_links)

  follow_links_sound :
      (fuel : ℕ) (mountpoint path : Bytes) (paths out : List Bytes)
      → follow_links fs fuel mountpoint path paths ≡ some (ok out)
      → Returned mountpoint path paths out
  unfolding Returned
  follow_links_sound zero mountpoint path paths out h = absurd (unfold follow_links in cc)
  follow_links_sound (suc fuel) mountpoint path paths out h =
      elim (Bool-cases (has_prefix path mountpoint)) [
        | inr outside ↦ inl (cc (round_outside fuel mountpoint path paths outside))
        | inl inside ↦ elim (follow-cases path) [
          | inl (e, failed) ↦ cc (round_failed fuel mountpoint path paths inside e failed)
          | inr (inl last) ↦
              inr
                (path ∷ [], cc (round_last fuel mountpoint path paths inside last), end inside last)
          | inr (inr (next, more)) ↦ extend inside more (
              follow_links_sound fuel mountpoint next (paths ++ path ∷ []) out
                (cc (round_more fuel mountpoint path paths inside next more)))
        ]
      ]
    where
      extend :
          {next : Bytes}
          → has_prefix path mountpoint ≡ true
          → follow fs path ≡ ok (some next)
          → Returned mountpoint next (paths ++ path ∷ []) out
          → Returned mountpoint path paths out
      extend inside more (inl none_left) = inl none_left
      extend inside more (inr (rest, e, c)) =
          inr (path ∷ rest, e ∙ append_assoc paths (path ∷ []) rest, link inside more c)

  follow_links_complete :
      (fuel : ℕ) {mountpoint path : Bytes} {rest : List Bytes} (paths : List Bytes)
      → Chain mountpoint path rest
      → length rest ≤ fuel
      → follow_links fs fuel mountpoint path paths ≡ some (ok (paths ++ rest))
  follow_links_complete zero paths (end inside last) h = absurd (omega arith)
  follow_links_complete zero paths (link inside more c) h = absurd (omega arith)
  follow_links_complete (suc fuel) {mountpoint} {path} paths (end inside last) h =
      round_last fuel mountpoint path paths inside last
  follow_links_complete (suc fuel) {mountpoint} {path} paths
        (link {next = next} {rest = rest} inside more c) h =
      round_more fuel mountpoint path paths inside next more
      ∙ follow_links_complete fuel (paths ++ path ∷ []) c (omega arith)
      ∙ ap (λ l. some (ok l)) (append_assoc paths (path ∷ []) rest)

  -- Where every path of a set lies below the mountpoint and links to a path of the set, the loop makes
  -- another round however often it went round.
  follow_links_cycle :
      (fuel : ℕ) (mountpoint : Bytes) (P : Bytes → Type 0)
      → ((p : Bytes)
          → P p
          → (has_prefix p mountpoint ≡ true) × ((q : Bytes) × (follow fs p ≡ ok (some q)) × P q))
      → (path : Bytes) (paths : List Bytes) → P path
      → follow_links fs fuel mountpoint path paths ≡ none
  unfolding follow_links
  follow_links_cycle zero mountpoint P step path paths h = refl
  follow_links_cycle (suc fuel) mountpoint P step path paths h =
      let (inside, (q, more, hq)) = step path h in
      rw (inside, more, follow_links)
        (follow_links_cycle fuel mountpoint P step q (paths ++ path ∷ []) hq)

-- What `recursiveSymlinks` returns without an error is empty, or the chain of links from the path to
-- a file that is no link or whose link is empty, and all of it lies below the mountpoint.
pub recursive_symlinks_sound :
    (fs : Links) (fuel : ℕ) (mountpoint path : Bytes) {out : List Bytes}
    → recursive_symlinks fs fuel mountpoint path ≡ some (ok out)
    → (out ≡ []) ⊎ Chain fs (with_slash mountpoint) path out
unfolding recursive_symlinks Returned
recursive_symlinks_sound fs fuel mountpoint path {out} h =
    elim (follow_links_sound fs fuel (with_slash mountpoint) path [] out h) [
      | inl nothing ↦ inl nothing
      | inr (rest, e, c) ↦ inr (subst (Chain fs (with_slash mountpoint) path) (sym e) c)
    ]

-- A chain of links below the mountpoint that ends is returned whole, with as many rounds as it has
-- paths or more.
pub recursive_symlinks_complete :
    (fs : Links) (fuel : ℕ) (mountpoint path : Bytes) {chain : List Bytes}
    → Chain fs (with_slash mountpoint) path chain
    → length chain ≤ fuel
    → recursive_symlinks fs fuel mountpoint path ≡ some (ok chain)
unfolding recursive_symlinks
recursive_symlinks_complete fs fuel mountpoint path c h = follow_links_complete fs fuel [] c h

-- A link below the mountpoint whose chain comes back to paths with such chains, as two links to one
-- another do, is followed for ever: no number of rounds is enough.
pub recursive_symlinks_cycle :
    (fs : Links) (fuel : ℕ) (mountpoint path : Bytes) (P : Bytes → Type 0)
    → ((p : Bytes)
        → P p
        → (has_prefix p (with_slash mountpoint) ≡ true)
          × ((q : Bytes) × (follow fs p ≡ ok (some q)) × P q))
    → P path
    → recursive_symlinks fs fuel mountpoint path ≡ none
unfolding recursive_symlinks
recursive_symlinks_cycle fs fuel mountpoint path P step h =
    follow_links_cycle fs fuel (with_slash mountpoint) P step path [] h
