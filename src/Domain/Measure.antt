-- ===== src/Domain/Measure.antt =====
-- internal/domain/measure.go: counters of observations and what a window lets one affirm. Counts are
-- numbers; the two ratios are kept as exact fractions in place of float64.
pub mod Laws
use cairnops.Common.{
  ℕ, zero, suc, ◌+◌, ◌*◌, ◌/◌, max, min, Bool, true, false, ltb, leb, if◌then◌else◌, Option, none,
  some, List, [], ◌∷◌,
}

-- A window that is none of the three constants is `other`.
pub data Window : Type 0 where
  day week month other : Window

unfoldable pub is_valid_window : Window → Bool
is_valid_window other = false
is_valid_window day = true
is_valid_window week = true
is_valid_window month = true

unfoldable pub hours : Window → ℕ
hours week = 7 * 24
hours month = 30 * 24
hours day = 24
hours other = 24

pub record Counters : Type 0 where
  pub healthy : ℕ
  pub unhealthy : ℕ
  pub unknown : ℕ
  pub expected : ℕ
  pub latency_sum_milliseconds : ℕ
  pub latency_count : ℕ
  pub latency_maximum : ℕ

unfoldable pub add : Counters → Counters → Counters
add a b = record {
  healthy = a.healthy + b.healthy;
  unhealthy = a.unhealthy + b.unhealthy;
  unknown = a.unknown + b.unknown;
  expected = a.expected + b.expected;
  latency_sum_milliseconds = a.latency_sum_milliseconds + b.latency_sum_milliseconds;
  latency_count = a.latency_count + b.latency_count;
  latency_maximum = max a.latency_maximum b.latency_maximum;
}

unfoldable pub conclusive : Counters → ℕ
conclusive c = c.healthy + c.unhealthy

-- `num / den`, with `den` above 0 wherever a measure holds one.
pub record Ratio : Type 0 where
  pub num : ℕ
  pub den : ℕ

pub record Measure : Type 0 where
  pub window : Window
  pub availability : Option Ratio
  pub coverage : Option Ratio
  pub average_latency : Option ℕ
  pub maximum_latency : Option ℕ
  pub conclusive_observations : ℕ
  pub unknown_observations : ℕ
  pub expected_observations : ℕ

-- `min(1, conclusive / expected)`, with 1 as `expected / expected`.
unfoldable pub measure : Counters → Window → Measure
unfolding conclusive
measure c w = record {
  window = w;
  availability =
      if ltb 0 (conclusive c) then some (record { num = c.healthy; den = conclusive c }) else none;
  coverage =
      if ltb 0 c.expected
      then some (record { num = min c.expected (conclusive c); den = c.expected })
      else none;
  average_latency =
      if ltb 0 c.latency_count
      then some ((c.latency_sum_milliseconds + c.latency_count / 2) / c.latency_count)
      else none;
  maximum_latency = if ltb 0 c.latency_count then some c.latency_maximum else none;
  conclusive_observations = conclusive c;
  unknown_observations = c.unknown;
  expected_observations = c.expected;
}
