-- ===== src/Domain/Trigger/Runs.antt =====
-- What the trigger policy concludes from whole runs of observations.
use cairnops.Common.{ℕ, suc, ◌≤◌, ◌≡◌, ◌↔◌, true, List, [], ◌∷◌, min, arith}
use cairnops.Domain.Trigger.{
  Outcome, healthy, unhealthy, unknown, other, TriggerPolicy, TriggerStreaks, evaluate,
}

-- The streaks that remain after a run of observations, the latest last.
unfoldable pub streaks_after : TriggerPolicy → TriggerStreaks → List Outcome → TriggerStreaks
streaks_after p s [] = s
streaks_after p s (o ∷ os) = streaks_after p (evaluate p s o).streaks os

-- The unhealthy observations since the last healthy one, counted without a cap.
abbrev pub trailing : ℕ → List Outcome → ℕ
trailing n [] = n
trailing n (unhealthy ∷ os) = trailing (suc n) os
trailing n (healthy ∷ os) = trailing 0 os
trailing n (unknown ∷ os) = trailing n os
trailing n (other ∷ os) = trailing n os

streaks_after-trailing :
    (p : TriggerPolicy) (os : List Outcome) (s : TriggerStreaks) (n : ℕ)
    → s.unhealthy ≡ min n p.failure_threshold
    → (streaks_after p s os).unhealthy ≡ min (trailing n os) p.failure_threshold
unfolding streaks_after evaluate
streaks_after-trailing p [] s n h = h
streaks_after-trailing p (unhealthy ∷ os) s n h =
    streaks_after-trailing p os (evaluate p s unhealthy).streaks (suc n) (omega arith)
streaks_after-trailing p (healthy ∷ os) s n h =
    streaks_after-trailing p os (evaluate p s healthy).streaks 0 (omega arith)
streaks_after-trailing p (unknown ∷ os) s n h = streaks_after-trailing p os s n h
streaks_after-trailing p (other ∷ os) s n h = streaks_after-trailing p os s n h

-- The healthy observations since the last unhealthy one.
abbrev pub trailing_healthy : ℕ → List Outcome → ℕ
trailing_healthy n [] = n
trailing_healthy n (unhealthy ∷ os) = trailing_healthy 0 os
trailing_healthy n (healthy ∷ os) = trailing_healthy (suc n) os
trailing_healthy n (unknown ∷ os) = trailing_healthy n os
trailing_healthy n (other ∷ os) = trailing_healthy n os

streaks_after-trailing_healthy :
    (p : TriggerPolicy) (os : List Outcome) (s : TriggerStreaks) (n : ℕ)
    → s.healthy ≡ min n p.recovery_threshold
    → (streaks_after p s os).healthy ≡ min (trailing_healthy n os) p.recovery_threshold
unfolding streaks_after evaluate
streaks_after-trailing_healthy p [] s n h = h
streaks_after-trailing_healthy p (unhealthy ∷ os) s n h =
    streaks_after-trailing_healthy p os (evaluate p s unhealthy).streaks 0 (omega arith)
streaks_after-trailing_healthy p (healthy ∷ os) s n h =
    streaks_after-trailing_healthy p os (evaluate p s healthy).streaks (suc n) (omega arith)
streaks_after-trailing_healthy p (unknown ∷ os) s n h = streaks_after-trailing_healthy p os s n h
streaks_after-trailing_healthy p (other ∷ os) s n h = streaks_after-trailing_healthy p os s n h

-- The streaks of a source that has observed nothing.
abbrev pub fresh : TriggerStreaks
fresh = record { unhealthy = 0; healthy = 0 }

-- From fresh streaks, after any run of observations, the next observation triggers exactly when it
-- is unhealthy and the unhealthy observations since the last healthy one, itself included and
-- inconclusive ones left out, reach the failure threshold.
pub evaluate-triggered_iff :
    (p : TriggerPolicy) (os : List Outcome) (o : Outcome)
    → ((evaluate p (streaks_after p fresh os) o).triggered ≡ true)
      ↔ ((o ≡ unhealthy) × (p.failure_threshold ≤ suc (trailing 0 os)))
unfolding evaluate
evaluate-triggered_iff p os unhealthy =
    ground (arith, streaks_after-trailing p os fresh 0 (omega arith))
evaluate-triggered_iff p os healthy = ground arith
evaluate-triggered_iff p os unknown = ground arith
evaluate-triggered_iff p os other = ground arith

-- The same for recovery: the next observation confirms it exactly when it is healthy and the
-- healthy observations since the last unhealthy one, itself included, reach the recovery threshold.
evaluate-recovered_iff :
    (p : TriggerPolicy) (os : List Outcome) (o : Outcome)
    → ((evaluate p (streaks_after p fresh os) o).recovered ≡ true)
      ↔ ((o ≡ healthy) × (p.recovery_threshold ≤ suc (trailing_healthy 0 os)))
unfolding evaluate
evaluate-recovered_iff p os healthy =
    ground (arith, streaks_after-trailing_healthy p os fresh 0 (omega arith))
evaluate-recovered_iff p os unhealthy = ground arith
evaluate-recovered_iff p os unknown = ground arith
evaluate-recovered_iff p os other = ground arith
