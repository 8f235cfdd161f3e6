-- ===== src/Domain/Source.antt =====
-- internal/domain/monitoring.go: what makes a signal source acceptable. An id is a number, 0 for the
-- empty string; durations are int64 nanoseconds; `json.Valid` is a parameter.
use cairnops.Common.{
  ℕ, Bool, true, false, ◌||◌, not, ◌==◌, if◌then◌else◌, ◌≡◌, ◌↔◌, ◌≢◌, arith, String,
}
use cairnops.Common.Int.{ℤ, pos, ltb_ℤ, leb_ℤ, ◌≤ℤ◌, ◌<ℤ◌}
use cairnops.Common.Result.{Result, ok, err, invalid_input}

-- A kind that is none of the five constants is `other`.
pub data SourceKind : Type 0 where
  http tcp dns icmp heartbeat other : SourceKind

unfoldable pub is_valid_kind : SourceKind → Bool
is_valid_kind other = false
is_valid_kind http = true
is_valid_kind tcp = true
is_valid_kind dns = true
is_valid_kind icmp = true
is_valid_kind heartbeat = true

abbrev pub second : ℕ
second = 1000000000

-- 20 seconds and 24 hours.
abbrev pub minimum_interval : ℤ
minimum_interval = pos 20000000000

abbrev pub maximum_interval : ℤ
maximum_interval = pos 86400000000000

pub record Source : Type 0 where
  pub id : ℕ
  pub target_id : ℕ
  pub kind : SourceKind
  pub interval : ℤ
  pub timeout : ℤ
  pub config : String

module _ (json_valid : String → Bool) where
  unfoldable pub validate : Source → Result (Unit {0})
  unfolding is_valid_kind
  validate s =
      if s.id == 0
      then err invalid_input
      else if s.target_id == 0
      then err invalid_input
      else if not (is_valid_kind s.kind)
      then err invalid_input
      else if ltb_ℤ s.interval minimum_interval || ltb_ℤ maximum_interval s.interval
      then err invalid_input
      else if leb_ℤ s.timeout (pos 0) || ltb_ℤ s.interval s.timeout
      then err invalid_input
      else if not (json_valid s.config)
      then err invalid_input
      else ok tt

  -- A source is accepted exactly when it and its target are named, its kind is known, its interval
  -- lies between 20 s and 24 h, its timeout is above 0 and within the interval, and its
  -- configuration is valid JSON.
  validate-ok_iff :
      (s : Source)
      → (validate s ≡ ok tt) ↔ (
          (s.id ≢ 0)
          × (s.target_id ≢ 0)
          × (s.kind ≢ other)
          × (minimum_interval ≤ℤ s.interval)
          × (s.interval ≤ℤ maximum_interval)
          × (pos 0 <ℤ s.timeout)
          × (s.timeout ≤ℤ s.interval)
          × (json_valid s.config ≡ true))
  unfolding validate
  validate-ok_iff s = ground arith
