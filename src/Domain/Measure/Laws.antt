-- ===== src/Domain/Measure/Laws.antt =====
-- What the measures of a window state, whatever the counters.
use native.Mathlib.Nat.{mod-lt, div-add-mod}
use cairnops.Common.{ℕ, ◌+◌, ◌*◌, ◌/◌, ◌≤◌, ◌<◌, ◌≡◌, ap, Option, none, some, arith}
use cairnops.Domain.Measure.{Window, Counters, Ratio, add, measure}

-- A ratio, where there is one, is at most 1.
abbrev pub IsShare : Option Ratio → Type 0
IsShare none = Unit
IsShare (some r) = (r.num ≤ r.den) × (0 < r.den)

-- Availability and coverage are absent or lie between 0 and 1 with a denominator above 0.
measure-IsShare :
    (c : Counters) (w : Window)
    → IsShare (measure c w).availability × IsShare (measure c w).coverage
unfolding measure
measure-IsShare c w = ground arith

-- What an observation in its outcome adds to a source's counters.
abbrev pub observed_unknown : Counters
observed_unknown = record {
  healthy = 0;
  unhealthy = 0;
  unknown = 1;
  expected = 0;
  latency_sum_milliseconds = 0;
  latency_count = 0;
  latency_maximum = 0;
}

-- An unknown observation more changes neither availability, nor coverage, nor the latencies: only
-- the count of unknown observations grows.
pub measure-unknown :
    (c : Counters) (w : Window)
    → let m = measure c w in
      let m' = measure (add c observed_unknown) w in
      (m'.availability ≡ m.availability)
      × (m'.coverage ≡ m.coverage)
      × (m'.average_latency ≡ m.average_latency)
      × (m'.maximum_latency ≡ m.maximum_latency)
      × (m'.unknown_observations ≡ m.unknown_observations + 1)
unfolding measure add
measure-unknown c w = ground arith

mean_bounds :
    (s n q : ℕ)
    → 0 < n
    → q ≡ (s + n / 2) / n
    → (2 * n * q ≤ 2 * s + n) × (2 * s < 2 * n * q + n + 1)
mean_bounds s n q h e = (
  omega (arith, div-add-mod (s + n / 2) n, ap (λ (t : ℕ). n * t) e),
  omega (arith, div-add-mod (s + n / 2) n, mod-lt (s + n / 2) h, ap (λ (t : ℕ). n * t) e),
)

-- The average latency of every window with samples is the exact mean, rounded half up: twice the
-- sum lies within one count of twice the count times the average.
pub measure-average :
    (c : Counters) (w : Window) (a : ℕ)
    → (measure c w).average_latency ≡ some a
    → (2 * c.latency_count * a ≤ 2 * c.latency_sum_milliseconds + c.latency_count)
      × (2 * c.latency_sum_milliseconds < 2 * c.latency_count * a + c.latency_count + 1)
unfolding measure
measure-average c w a h = ground (arith, mean_bounds c.latency_sum_milliseconds c.latency_count a)
