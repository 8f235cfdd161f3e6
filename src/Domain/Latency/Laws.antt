-- ===== src/Domain/Latency/Laws.antt =====
-- What a latency threshold and an anomaly establish.
use cairnops.Common.{
  ℕ, ◌+◌, ◌*◌, ◌≤◌, ◌<◌, ◌≡◌, ◌⊎◌, refl, Option, none, some, List, [], ◌∷◌, arith, Bool, false,
  select, map, if◌then◌else◌, leb, ◌&&◌, ◌++◌, ◌∙◌,
}
use cairnops.Common.Int.{ℤ, pos, ◌≤ℤ◌, scale64, add64, wrap64_pos, max_ℤ, ltb_ℤ}
use cairnops.Domain.Latency.{
  LatencyObservation, LatencyBucket, LatencyProfile, LatencyAnomaly, threshold, bucket_at,
  threshold_at, anomaly_of, detect_latency_anomalies, bucket, utc_hour, all_hours, rich, push_some,
  latency_deviation_factor, minimum_latency_margin,
}

-- A threshold is at least the 99th percentile, twice the median and the median plus 50 ms, and is
-- one of the three, for a median that is not negative and below 2^62 ns (146 years).
threshold_bounds :
    (b : LatencyBucket) (m : ℕ) (d : ℤ)
    → b.median ≡ pos m
    → m < 4611686018427387904
    → threshold b ≡ some d
    → (30 ≤ b.samples)
      × (b.p99 ≤ℤ d)
      × (pos (2 * m) ≤ℤ d)
      × (pos (m + 50000000) ≤ℤ d)
      × ((d ≡ b.p99) ⊎ ((d ≡ pos (2 * m)) ⊎ (d ≡ pos (m + 50000000))))
unfolding threshold scale64 add64
threshold_bounds b m d e h t = ground (arith, wrap64_pos (2 * m), wrap64_pos (m + 50000000))

rich-samples : (o : Option LatencyBucket) (b : LatencyBucket) → rich o ≡ some b → 30 ≤ b.samples
rich-samples none b h = cc
rich-samples (some c) b h = ground arith

bucket_at-samples :
    (p : LatencyProfile) (t : ℕ) (b : LatencyBucket) → bucket_at p t ≡ some b → 30 ≤ b.samples
unfolding bucket_at
bucket_at-samples p t b h =
    ground
      (arith, rich-samples (bucket p (pos (utc_hour t))) b, rich-samples (bucket p all_hours) b)

-- The threshold of a bucket that is rich enough.
abbrev level : LatencyBucket → ℤ
level b =
    max_ℤ (max_ℤ b.p99 (scale64 latency_deviation_factor b.median))
      (add64 b.median minimum_latency_margin)

-- The bucket chosen for an instant has at least 30 samples, so it always gives a threshold.
bucket_at-threshold :
    (p : LatencyProfile) (t : ℕ) (b : LatencyBucket)
    → bucket_at p t ≡ some b
    → (d : ℤ) × (threshold b ≡ some d) × (threshold_at p t ≡ some d)
unfolding threshold_at threshold
bucket_at-threshold p t b h = (
  level b,
  ground (arith, bucket_at-samples p t b h),
  rw (h, threshold_at) (ground (arith, bucket_at-samples p t b h)),
)

abbrev exceeds : ℤ → Option ℤ → Bool
exceeds l none = false
exceeds l (some d) = ltb_ℤ d l

-- The observation is at or after the end of its source's profile window, and its latency exceeds
-- the threshold which that profile gives for its instant.
abbrev pub is_slow : LatencyObservation → Option LatencyProfile → Bool
is_slow o none = false
is_slow o (some p) =
    leb p.window_end o.observed_at && exceeds o.latency (threshold_at p o.observed_at)

observation_of : Option LatencyAnomaly → List LatencyObservation
observation_of none = []
observation_of (some a) = a.observation ∷ []

anomaly_of-is_slow :
    (o : LatencyObservation) (p : LatencyProfile) (r : Option LatencyBucket)
    → bucket_at p o.observed_at ≡ r
    → observation_of (anomaly_of o (some p)) ≡ (if is_slow o (some p) then o ∷ [] else [])
unfolding anomaly_of threshold_at observation_of
anomaly_of-is_slow o p none h = rw (h, anomaly_of, threshold_at) (ground arith)
anomaly_of-is_slow o p (some b) h =
    let (d, e, _) = bucket_at-threshold p o.observed_at b h in
    rw (h, anomaly_of, threshold_at) (rw e (ground arith))

observations-push_some :
    (r : Option LatencyAnomaly) (xs : List LatencyAnomaly)
    → map (λ a. a.observation) (push_some r xs) ≡ observation_of r ++ map (λ a. a.observation) xs
unfolding observation_of
observations-push_some none xs = refl
observations-push_some (some a) xs = refl

anomaly_of_lem :
    (o : LatencyObservation) (r : Option LatencyProfile)
    → observation_of (anomaly_of o r) ≡ (if is_slow o r then o ∷ [] else [])
unfolding anomaly_of observation_of
anomaly_of_lem o none = refl
anomaly_of_lem o (some p) = anomaly_of-is_slow o p (bucket_at p o.observed_at) refl

-- The anomalies are exactly the slow observations, in the order they came in: those at or after
-- the end of their source's profile window whose latency exceeds the threshold for their instant.
pub detect_latency_anomalies-select :
    (os : List LatencyObservation) (profiles : ℕ → Option LatencyProfile)
    → map (λ a. a.observation) (detect_latency_anomalies os profiles)
      ≡ select (λ o. is_slow o (profiles o.source_id)) os
unfolding detect_latency_anomalies
detect_latency_anomalies-select [] profiles = refl
detect_latency_anomalies-select (o ∷ os) profiles =
    observations-push_some (anomaly_of o (profiles o.source_id))
      (detect_latency_anomalies os profiles)
    ∙ (rw (anomaly_of_lem o (profiles o.source_id), detect_latency_anomalies-select os profiles)
        (ground arith))
