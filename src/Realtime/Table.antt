-- ===== src/Realtime/Table.antt =====
-- internal/realtime/realtime.go: the queries on the table of events.
pub mod Window
pub mod Last
pub mod Rest
use cairnops.Common.{
  ℕ, zero, suc, String, Bool, List, [], ◌∷◌, ltb, leb, if◌then◌else◌, select, ◌++◌, max, min,
}

pub record Event : Type 0 where
  pub version : ℕ
  pub kind : String
  pub entity_type : String
  pub entity_id : String
  pub occurred_at : ℕ

-- LIMIT n.
abbrev pub limit {ℓ} : {A : Type ℓ} → ℕ → List A → List A
limit zero xs = []
limit (suc n) [] = []
limit (suc n) (x ∷ xs) = x ∷ limit n xs

unfoldable pub insert_version : Event → List Event → List Event
insert_version e [] = e ∷ []
insert_version e (f ∷ fs) =
    let rest = insert_version e fs in if leb e.version f.version then e ∷ f ∷ fs else f ∷ rest

-- ORDER BY version.
unfoldable pub order_by_version : List Event → List Event
unfolding insert_version
order_by_version [] = []
order_by_version (e ∷ es) = insert_version e (order_by_version es)

unfoldable pub list_after : List Event → ℕ → ℕ → List Event
unfolding order_by_version
list_after table version n = limit n (order_by_version (select (λ e. ltb version e.version) table))

-- `coalesce(max(version), 0)`.
unfoldable pub latest_version : List Event → ℕ
latest_version [] = 0
latest_version (e ∷ es) = max e.version (latest_version es)

unfoldable pub oldest_from : ℕ → List Event → ℕ
oldest_from v [] = v
oldest_from v (e ∷ es) = oldest_from (min v e.version) es

-- `coalesce(min(version), 0)`.
unfoldable pub oldest_version : List Event → ℕ
unfolding oldest_from
oldest_version [] = 0
oldest_version (e ∷ es) = oldest_from e.version es
