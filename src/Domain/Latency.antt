-- ===== src/Domain/Latency.antt =====
-- internal/domain/latency.go: the latency profile of a source and the anomalies it shows. An instant
-- is a number of nanoseconds from Go's zero time; latencies are int64 nanoseconds.
pub mod Laws
use cairnops.Common.{
  ℕ, zero, suc, ◌+◌, ◌*◌, ◌/◌, ◌%◌, Bool, true, false, not, ◌||◌, ◌&&◌, ltb, leb, ◌==◌,
  if◌then◌else◌, Option, none, some, List, [], ◌∷◌, find?, is_some,
}
use cairnops.Common.Int.{ℤ, pos, negsuc, ltb_ℤ, leb_ℤ, max_ℤ, add64, scale64}

abbrev pub minimum_latency_samples : ℕ
minimum_latency_samples = 30

abbrev pub latency_deviation_factor : ℕ
latency_deviation_factor = 2

-- 50 milliseconds.
abbrev pub minimum_latency_margin : ℤ
minimum_latency_margin = pos 50000000

pub record LatencyObservation : Type 0 where
  pub id : ℕ
  pub source_id : ℕ
  pub observed_at : ℕ
  pub latency : ℤ

-- A bucket's hour is 0 to 23, or -1 for the bucket of all hours.
abbrev pub all_hours : ℤ
all_hours = negsuc 0

pub record LatencyBucket : Type 0 where
  pub hour : ℤ
  pub samples : ℕ
  pub median : ℤ
  pub p95 : ℤ
  pub p99 : ℤ

pub record LatencyAnomaly : Type 0 where
  pub observation : LatencyObservation
  pub median : ℤ
  pub threshold : ℤ
  pub hour : ℤ
  pub samples : ℕ

-- `none` is the second result `false`.
unfoldable pub threshold : LatencyBucket → Option ℤ
threshold b =
    if ltb b.samples minimum_latency_samples
    then none
    else some (
        max_ℤ (max_ℤ b.p99 (scale64 latency_deviation_factor b.median))
          (add64 b.median minimum_latency_margin))

pub record LatencyProfile : Type 0 where
  pub source_id : ℕ
  pub window_start : ℕ
  pub window_end : ℕ
  pub samples : ℕ
  pub computed_at : ℕ
  pub buckets : List LatencyBucket

abbrev pub eq_ℤ : ℤ → ℤ → Bool
eq_ℤ (pos a) (pos b) = a == b
eq_ℤ (negsuc a) (negsuc b) = a == b
eq_ℤ _ _ = false

unfoldable pub bucket : LatencyProfile → ℤ → Option LatencyBucket
bucket p hour = find? (λ b. eq_ℤ b.hour hour) p.buckets

-- `at.UTC().Hour()`: the zero time is midnight UTC, and UTC has no leap seconds here.
unfoldable pub utc_hour : ℕ → ℕ
utc_hour t = t / 3600000000000 % 24

-- A bucket that is found and rich enough.
abbrev pub rich : Option LatencyBucket → Option LatencyBucket
rich none = none
rich (some b) = if leb minimum_latency_samples b.samples then some b else none

abbrev pub or_else : Option LatencyBucket → Option LatencyBucket → Option LatencyBucket
or_else none o = o
or_else (some b) o = some b

unfoldable pub bucket_at : LatencyProfile → ℕ → Option LatencyBucket
unfolding bucket utc_hour
bucket_at p t = or_else (rich (bucket p (pos (utc_hour t)))) (rich (bucket p all_hours))

unfoldable pub threshold_at : LatencyProfile → ℕ → Option ℤ
unfolding bucket_at threshold
threshold_at p t = elim (bucket_at p t) [ none ↦ none | some b ↦ threshold b ]

-- `threshold, _ := bucket.Threshold()`: an absent threshold reads as 0.
abbrev pub or_zero : Option ℤ → ℤ
or_zero none = pos 0
or_zero (some d) = d

unfoldable pub anomaly_of : LatencyObservation → Option LatencyProfile → Option LatencyAnomaly
unfolding bucket_at threshold
anomaly_of o none = none
anomaly_of o (some p) =
    if ltb o.observed_at p.window_end then none else elim (bucket_at p o.observed_at) [
      | none ↦ none
      | some b ↦
          if leb_ℤ o.latency (or_zero (threshold b))
          then none
          else some (record {
            observation = o;
            median = b.median;
            threshold = or_zero (threshold b);
            hour = b.hour;
            samples = b.samples;
          })
    ]

abbrev pub push_some : Option LatencyAnomaly → List LatencyAnomaly → List LatencyAnomaly
push_some none xs = xs
push_some (some a) xs = a ∷ xs

-- The map of profiles is a function of the source.
unfoldable pub detect_latency_anomalies :
    List LatencyObservation → (ℕ → Option LatencyProfile) → List LatencyAnomaly
unfolding anomaly_of
detect_latency_anomalies [] profiles = []
detect_latency_anomalies (o ∷ os) profiles =
    push_some (anomaly_of o (profiles o.source_id)) (detect_latency_anomalies os profiles)
