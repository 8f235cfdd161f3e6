-- ===== src/Realtime/Table/Last.antt =====
-- The version that the hub takes from what it read: between the one it had and the table's latest.
use cairnops.Common.{
  ℕ, zero, suc, ◌≤◌, List, [], ◌∷◌, ltb, ltb→lt, arith, All, All-mono, All-select, select_fits,
  select,
}
use cairnops.Realtime.Table.{Event, limit, latest_version}
use cairnops.Realtime.Hub.{last_version}

last_version_le :
    (v m : ℕ) (es : List Event) → v ≤ m → All (λ e. e.version ≤ m) es → last_version v es ≤ m
unfolding last_version
last_version_le v m [] h a = h
last_version_le v m (e ∷ es) h a = last_version_le e.version m es a.0 a.1

versions_le : (table : List Event) → All (λ e. e.version ≤ latest_version table) table
unfolding latest_version
versions_le [] = tt
versions_le (e ∷ es) = (
  omega arith,
  All-mono _ (λ x. x.version ≤ latest_version (e ∷ es)) es (λ x h. omega (arith, h))
      (versions_le es),
)

pub All-limit : (P : Event → Type 0) (n : ℕ) (es : List Event) → All P es → All P (limit n es)
All-limit P zero es a = tt
All-limit P (suc n) [] a = tt
All-limit P (suc n) (e ∷ es) a = (a.0, All-limit P n es a.1)

last_version_above :
    (u v : ℕ) (es : List Event) → u ≤ v → All (λ e. u ≤ e.version) es → u ≤ last_version v es
unfolding last_version
last_version_above u v [] h a = h
last_version_above u v (e ∷ es) h a = last_version_above u e.version es a.0 a.1

module _ (table : List Event) (v n : ℕ) where
  unfoldable pub batch : List Event
  batch = limit n (select (λ e. ltb v e.version) table)

  pub last_version_up : v ≤ last_version v batch
  unfolding batch
  last_version_up = last_version_above v v batch (omega arith) (
      All-limit (λ e. v ≤ e.version) n (select (λ e. ltb v e.version) table)
        (All-mono _ (λ e. v ≤ e.version) (select (λ e. ltb v e.version) table)
          (λ e h. omega (arith, ltb→lt v e.version h)) (select_fits (λ e. ltb v e.version) table)))

  pub last_version_latest : v ≤ latest_version table → last_version v batch ≤ latest_version table
  unfolding batch
  last_version_latest h = last_version_le v (latest_version table) batch h (
      All-limit _ n (select (λ e. ltb v e.version) table)
        (All-select (λ e. e.version ≤ latest_version table) _ table (versions_le table)))
