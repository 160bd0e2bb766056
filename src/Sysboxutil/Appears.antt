-- ===== src/Sysboxutil/Appears.antt =====
-- When `WaitForManager` of sysboxutil/manager.go returns nil.
use envbox.Prelude.{
  ℕ, zero, suc, ◌≡◌, ◌↔◌, ◌⊎◌, inl, inr, refl, true, none, some, Error, is_cause, not_exist,
  Option-cases, Bool-cases,
}
use envbox.Sysboxutil.{Manager, stat_loop, wait_for_manager}

-- The socket is not there at the tick of the round.
abbrev pub IsAbsent : Manager → ℕ → Type 0
IsAbsent m k =
    (m.done k ≡ none) × ((e : Error) × (m.stat k ≡ some e) × (is_cause e not_exist ≡ true))

-- The socket is there at a tick within the number of rounds from this one on, and absent at those before.
pub data Appears (m : Manager) : ℕ → ℕ → Type 0 where
  here : {fuel k : ℕ} → m.done k ≡ none → m.stat k ≡ none → Appears m (suc fuel) k
  later : {fuel k : ℕ} → IsAbsent m k → Appears m fuel (suc k) → Appears m (suc fuel) k

module _ (m : Manager) where
  stat_loop_found : {fuel k : ℕ} → Appears m fuel k → stat_loop m fuel k ≡ some none
  unfolding stat_loop
  stat_loop_found (here going there) = rw (stat_loop, going, there) refl
  stat_loop_found (later (going, (e, failed, absent)) rest) =
      rw (stat_loop, going, failed, absent) (stat_loop_found rest)

  stat_loop_sound : (fuel k : ℕ) → stat_loop m fuel k ≡ some none → Appears m fuel k
  unfolding stat_loop
  stat_loop_sound zero k h = absurd (cc h)
  stat_loop_sound (suc fuel) k h = elim (Option-cases (m.done k)) [
    | inr (e, done) ↦ absurd (cc (rw (stat_loop, done) at h))
    | inl going ↦ elim (Option-cases (m.stat k)) [
      | inl there ↦ here going there
      | inr (e, failed) ↦ elim (Bool-cases (is_cause e not_exist)) [
        | inl absent ↦
            later (going, (e, failed, absent))
              (stat_loop_sound fuel (suc k) (rw (stat_loop, going, failed, absent) at h))
        | inr other ↦ absurd (cc (rw (stat_loop, going, failed, other) at h))
      ]
    ]
  ]

-- `WaitForManager` returns nil within the rounds exactly where the socket is there at first, or at a tick
-- before which it was absent at all ticks, the context being open.
pub wait_for_manager_iff :
    (m : Manager) (fuel : ℕ)
    → (wait_for_manager m fuel ≡ some none) ↔ ((m.first_stat ≡ none) ⊎ Appears m fuel 0)
unfolding wait_for_manager
wait_for_manager_iff m fuel = elim (Option-cases m.first_stat) [
  | inl there ↦ (λ h. inl there, λ h. rw (wait_for_manager, there) refl)
  | inr (e, failed) ↦ (
    λ h. inr (stat_loop_sound m fuel 0 (rw (wait_for_manager, failed) at h)),
    λ h. elim h [
      | inl there ↦ absurd (cc there)
      | inr appears ↦ rw (wait_for_manager, failed) (stat_loop_found m appears)
    ],
  )
]
