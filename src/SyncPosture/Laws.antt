-- ===== src/SyncPosture/Laws.antt =====
-- The postures agree across the classifier, the breaker, Redis and the database.
use linkedin_hyper_v.Prelude.{
  ◌≡◌, ◌⊎◌, refl, String, true, not, some, arith, truthy, includes, eq_iff, if◌then◌else◌,
  Bool-cases, inl, inr,
}
use linkedin_hyper_v.AntiBan.Breaker.{hard_signals}
use linkedin_hyper_v.SyncPosture.{
  Backoffs, Failure, classify_sync_failure, is_blocked_posture, session_status, get_sync_posture,
  is_warning, is_expired, is_checkpoint, is_redirected, is_transient,
}

-- The classifier's blocked postures are the signals that the circuit breaker counts.
pub is_blocked_posture-hard_signals : (p : String) → is_blocked_posture p ≡ includes hard_signals p
unfolding is_blocked_posture
is_blocked_posture-hard_signals p = ground arith

-- A failure is retryable exactly if its posture is no blocked one, that is, if the breaker does not
-- count it; and coverage is "stale" then, else "blocked".
pub classify_sync_failure_lem :
    (b : Backoffs) (f : Failure)
    → ((classify_sync_failure b f).retryable
        ≡ not (includes hard_signals (classify_sync_failure b f).posture))
      × ((classify_sync_failure b f).coverage
          ≡ (if (classify_sync_failure b f).retryable then "stale" else "blocked"))
unfolding classify_sync_failure
classify_sync_failure_lem b f = elim (Bool-cases (is_warning f)) [
  | inl yes₁ ↦ rw yes₁ (refl, refl)
  | inr no₁ ↦ rw no₁ (elim (Bool-cases (is_expired f)) [
    | inl yes₂ ↦ rw yes₂ (refl, refl)
    | inr no₂ ↦ rw no₂ (elim (Bool-cases (is_checkpoint f)) [
      | inl yes₃ ↦ rw yes₃ (refl, refl)
      | inr no₃ ↦ rw no₃ (elim (Bool-cases (is_redirected f)) [
        | inl yes₄ ↦ rw yes₄ (refl, refl)
        | inr no₄ ↦ rw no₄ (elim (Bool-cases (is_transient f)) [
          | inl yes₅ ↦ rw yes₅ (refl, refl)
          | inr no₅ ↦ rw no₅ (refl, refl)
        ])
      ])
    ])
  ])
]

-- The postures that set a status, each with its status.
abbrev StatusOf : String → String → Type 0
StatusOf p s =
    ((p ≡ "blocked") × (s ≡ "expired"))
    ⊎ ((p ≡ "automation_warning") × (s ≡ "restricted"))
    ⊎ ((p ≡ "checkpoint") × (s ≡ "checkpoint"))
    ⊎ ((p ≡ "expired") × (s ≡ "expired"))
    ⊎ ((p ≡ "healthy") × (s ≡ "connected"))

session_status-cases : (p s : String) → session_status p ≡ some s → StatusOf p s
unfolding session_status
session_status-cases p s e = ground (
  arith,
  eq_iff "blocked" p,
  eq_iff "checkpoint" p,
  eq_iff "expired" p,
  eq_iff "automation_warning" p,
  eq_iff p "blocked",
  eq_iff p "automation_warning",
  eq_iff p "healthy",
)

-- When Redis has lost the posture, what is read back from the account's status is blocked exactly
-- if the posture was, for every posture that sets a status.
pub get_sync_posture-session_status :
    (account p s : String)
    → truthy account ≡ true
    → session_status p ≡ some s
    → is_blocked_posture (get_sync_posture account "" s) ≡ is_blocked_posture p
unfolding session_status get_sync_posture is_blocked_posture
get_sync_posture-session_status account p s a e = elim (session_status-cases p s e) [
  | inl (p', s') ↦ rw (p', s', a)
  | inr (inl (p', s')) ↦ rw (p', s', a)
  | inr (inr (inl (p', s'))) ↦ rw (p', s', a)
  | inr (inr (inr (inl (p', s')))) ↦ rw (p', s', a)
  | inr (inr (inr (inr (p', s')))) ↦ rw (p', s', a)
]
