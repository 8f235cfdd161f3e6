-- ===== src/Realtime/Hub/System/CatchUp.antt =====
-- The loop of catchUp over a table that stays as it is: it ends, and leaves nothing to read.
use cairnops.Common.{
  ltb-false, ℕ, zero, suc, ◌≤◌, ◌<◌, ◌≡◌, refl, true, none, some, List, [], ◌∷◌, ltb, ltb→lt,
  select, arith, length, subst, Bool-cases, inl, inr, ◌∙◌, ap, ◌⊎◌,
}
use cairnops.Realtime.Table.{Event, limit, list_after}
use cairnops.Realtime.Table.Window.{list_after-ascending}
use cairnops.Realtime.Table.Rest.{drop, length-drop, drop-short, length-limit, read-rest}
use cairnops.Realtime.Hub.{Hub, HubError, catch_up, read_batch, broadcast, last_version}
use cairnops.Realtime.Hub.System.{System}
use cairnops.Realtime.Hub.System.Feed.{Inv}
use cairnops.Realtime.Hub.System.Runs.{read-Inv}

abbrev pub stored : List Event → ℕ → ℕ → HubError ⊎ List Event
stored table v n = inr (list_after table v n)

abbrev pub unread : List Event → ℕ → List Event
unread table v = select (λ e. ltb v e.version) table

record IsRead (events : List Event) (h k : Hub) : Type 0 where
  version : k.version ≡ last_version h.version events
  batch_size : k.batch_size ≡ h.batch_size
  ready : k.ready ≡ h.ready

read_batch-IsRead : (events : List Event) (h : Hub) → IsRead events h (read_batch events h)
unfolding read_batch broadcast last_version
read_batch-IsRead [] h = record { version = refl; batch_size = refl; ready = refl }
read_batch-IsRead (e ∷ es) h = record { version = refl; batch_size = refl; ready = refl }

-- What is left to read after one round.
unread-read_batch :
    (s : System)
    → Inv s
    → unread s.table (read_batch (list_after s.table s.hub.version s.hub.batch_size) s.hub).version
      ≡ drop s.hub.batch_size (unread s.table s.hub.version)
unread-read_batch s inv =
    let v : ℕ = s.hub.version in
    let n : ℕ = s.hub.batch_size in
    ap (unread s.table) (
      (read_batch-IsRead (list_after s.table v n) s.hub).version
      ∙ ap (last_version v) (list_after-ascending s.table v n inv.ascending))
    ∙ read-rest 0 v n s.table (omega arith) inv.ascending

-- Where the source answers from an ascending table and the batch size is not zero, catchUp
-- ends without an error for every fuel above the number of unread events; no event of the table is then
-- later than the hub's version, and the readers have what they were promised.
pub catch_up-reads_all :
    (fuel : ℕ) (s : System)
    → Inv s
    → s.hub.ready ≡ true
    → 0 < s.hub.batch_size
    → length (unread s.table s.hub.version) < fuel
    → (h : Hub) × (catch_up fuel (stored s.table) s.hub ≡ some (none, h))
      × (unread s.table h.version ≡ [])
      × Inv (record s { hub = h })
unfolding catch_up
catch_up-reads_all zero s inv r p f = absurd (omega (arith, f))
catch_up-reads_all (suc fuel) s inv r p f =
    let v : ℕ = s.hub.version in
    let n : ℕ = s.hub.batch_size in
    let events : List Event = list_after s.table v n in
    let next : Hub = read_batch events s.hub in
    let step : IsRead events s.hub next = read_batch-IsRead events s.hub in
    let kept : Inv (record s { hub = next }) = read-Inv s inv r in
    let limited : events ≡ limit n (unread s.table v) =
      list_after-ascending s.table v n inv.ascending in
    let left : unread s.table next.version ≡ drop n (unread s.table v) = unread-read_batch s inv in
    elim (Bool-cases (ltb (length events) n)) [
      | inl short ↦ (
        next,
        rw short,
        left
            ∙ drop-short n (unread s.table v)
                (subst (λ x. length x < n) limited (ltb→lt (length events) n short)),
        kept,
      )
      | inr full ↦
          let more : n ≤ length (unread s.table v) =
            length-limit n (unread s.table v)
              (subst (λ x. n ≤ length x) limited (ltb-false (length events) n full)) in
          let rest : (h : Hub) × (catch_up fuel (stored s.table) next ≡ some (none, h))
              × (unread s.table h.version ≡ [])
              × Inv (record s { hub = h }) =
            catch_up-reads_all fuel (record s { hub = next }) kept (step.ready ∙ r)
              (omega (arith, p, step.batch_size))
              (omega (arith, f, more, p, ap length left, length-drop n (unread s.table v))) in
          (rest.0, rw full (rest.1), rest.2, rest.3)
    ]
