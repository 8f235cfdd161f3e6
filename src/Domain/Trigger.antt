-- ===== src/Domain/Trigger.antt =====
-- internal/domain/trigger.go: when a run of observations is enough to conclude. Thresholds and
-- streaks are numbers, as the columns' CHECK constraints have it (BETWEEN 1 AND 10, >= 0); an
-- outcome that is none of the three constants is `other`.
pub mod Runs
use cairnops.Common.{ℕ, ◌+◌, Bool, true, false, ◌||◌, ◌&&◌, ltb, leb, if◌then◌else◌, min}
use cairnops.Common.Result.{Result, ok, err, invalid_input, ◌>>=◌}

pub data Outcome : Type 0 where
  healthy unhealthy unknown other : Outcome

pub record TriggerPolicy : Type 0 where
  pub failure_threshold : ℕ
  pub recovery_threshold : ℕ

pub record TriggerStreaks : Type 0 where
  pub unhealthy : ℕ
  pub healthy : ℕ

pub record TriggerDecision : Type 0 where
  pub streaks : TriggerStreaks
  pub triggered : Bool
  pub recovered : Bool

abbrev pub minimum_threshold : ℕ
minimum_threshold = 1

abbrev pub maximum_threshold : ℕ
maximum_threshold = 10

unfoldable pub validate : TriggerPolicy → Result (Unit {0})
validate p =
    if ltb p.failure_threshold minimum_threshold || ltb maximum_threshold p.failure_threshold
    then err invalid_input
    else if ltb p.recovery_threshold minimum_threshold || ltb maximum_threshold p.recovery_threshold
    then err invalid_input
    else ok tt

-- `Evaluate`: the struct literals of the source leave the other streak at 0.
unfoldable pub evaluate : TriggerPolicy → TriggerStreaks → Outcome → TriggerDecision
evaluate p s unhealthy =
    let n = min (s.unhealthy + 1) p.failure_threshold in
    record {
      streaks = record { unhealthy = n; healthy = 0 };
      triggered = leb p.failure_threshold n;
      recovered = false;
    }
evaluate p s healthy =
    let n = min (s.healthy + 1) p.recovery_threshold in
    record {
      streaks = record { unhealthy = 0; healthy = n };
      triggered = false;
      recovered = leb p.recovery_threshold n;
    }
evaluate p s _ = record { streaks = s; triggered = false; recovered = false }
