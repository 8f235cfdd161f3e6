-- ===== src/Tests/Rules.antt =====
-- The rules of internal/domain, internal/alerttext and internal/health at concrete inputs.
use cairnops.Common.{
  suc, ◌≤◌, ◌≡◌, ◌↔◌, refl, true, false, some, List, [], ◌∷◌, exists, select, map, if◌then◌else◌,
}
use cairnops.Common.Int.{pos, negsuc, scale64, add64, wrap64}
use cairnops.Domain.Trigger.{Outcome, healthy, unhealthy, TriggerPolicy, evaluate}
use cairnops.Domain.Trigger.Runs.{fresh, streaks_after, trailing, evaluate-triggered_iff}
use cairnops.Domain.Measure.{week, Counters, measure}
use cairnops.Domain.Latency.{
  LatencyBucket, LatencyProfile, LatencyObservation, threshold, bucket_at, bucket, utc_hour,
  detect_latency_anomalies,
}
use cairnops.Domain.Latency.Laws.{is_slow, detect_latency_anomalies-select}
use cairnops.Domain.Source.{Source, SourceKind}
use cairnops.AlertText.{Kind, Fact, no_fact}
use cairnops.Health.{State, rank, overall, Facts, Check, Condition, clock_skew, proves_available}
use cairnops.Health.Conclusions.{evaluate_lem, down, impaired_by}
use cairnops.Health as Health

abbrev policy : TriggerPolicy
policy = record { failure_threshold = 3; recovery_threshold = 2 }

abbrev failing : List Outcome
failing = healthy ∷ unhealthy ∷ Outcome.unknown ∷ unhealthy ∷ []

evaluate-triggered_iff_example :
    ((evaluate policy (streaks_after policy fresh failing) unhealthy).triggered ≡ true)
    ↔ ((unhealthy ≡ unhealthy) × (3 ≤ suc (trailing 0 failing)))
evaluate-triggered_iff_example = evaluate-triggered_iff policy failing unhealthy

abbrev counters : Counters
counters = record {
  healthy = 90;
  unhealthy = 10;
  unknown = 5;
  expected = 110;
  latency_sum_milliseconds = 181;
  latency_count = 2;
  latency_maximum = 120;
}

average_91 : (measure counters week).average_latency ≡ some 91
unfolding measure
average_91 = refl

abbrev rich_bucket : LatencyBucket
rich_bucket = record {
  hour = negsuc 0;
  samples = 40;
  median = pos 20000000;
  p95 = pos 50000000;
  p99 = pos 60000000;
}

bucket_threshold : threshold rich_bucket ≡ some (pos 70000000)
unfolding threshold scale64 add64 wrap64
bucket_threshold = refl

abbrev profile : LatencyProfile
profile = record {
  source_id = 1;
  window_start = 10;
  window_end = 20;
  samples = 40;
  computed_at = 20;
  buckets = rich_bucket ∷ [];
}

profile_bucket : bucket_at profile 30 ≡ some rich_bucket
unfolding bucket_at bucket utc_hour
profile_bucket = refl

abbrev slow_and_fast : List LatencyObservation
slow_and_fast =
    record { id = 1; source_id = 1; observed_at = 30; latency = pos 80000000 }
    ∷ record { id = 2; source_id = 1; observed_at = 40; latency = pos 10000000 }
    ∷ []

detect_latency_anomalies-select_example :
    map (λ a. a.observation) (detect_latency_anomalies slow_and_fast (λ id. some profile))
    ≡ select (λ o. is_slow o (some profile)) slow_and_fast
detect_latency_anomalies-select_example =
    detect_latency_anomalies-select slow_and_fast (λ id. some profile)

abbrev source : Source
source = record {
  id = 1;
  target_id = 2;
  kind = SourceKind.http;
  interval = pos 60000000000;
  timeout = pos 5000000000;
  config = "{}";
}

abbrev update_fact : Fact
update_fact = record no_fact {
  kind = Kind.software_update;
  current_version = 49 ∷ [];
  available_version = 50 ∷ [];
}

abbrev facts : Facts
facts = record {
  target_id = 1;
  checks =
      record {
        last_observed_at = some 5000000000000;
        latest_outcome = healthy;
        cadence = pos 0;
        enabled = true;
        measures_availability = true;
      }
      ∷ [];
  conditions =
      record { last_seen_at = some 5000000000000; kind = Kind.cpu_usage; invalidated = false } ∷ [];
}

evaluate_lem_example : Health.evaluate facts 5000000000000 ≡ (
    if exists (down 5000000000000) facts.conditions
    then State.unavailable
    else if exists (impaired_by 5000000000000) facts.conditions
    then State.degraded
    else if exists (λ c. proves_available c 5000000000000) facts.checks
    then State.available
    else State.unknown)
evaluate_lem_example = evaluate_lem facts 5000000000000
