-- ===== src/Realtime/Hub/System.antt =====
-- The hub, its readers and the writers of the table, interleaved in any order. The rows are committed in
-- the order of their versions; what happens where they are not stands in Hub/Delivery.
pub mod Feed
pub mod Runs
pub mod CatchUp
use cairnops.Common.{
  ℕ, ◌<◌, ◌≡◌, Bool, true, false, Option, List, [], ◌∷◌, ◌++◌, inr, ◌==◌, update_where,
}
use cairnops.Realtime.Table.{Event, list_after, latest_version}
use cairnops.Realtime.Hub.{
  HubOptions, Subscription, Hub, new_hub, subscribe, notified, read_batch, shutdown, close, receive,
}

pub record System : Type 0 where
  pub table : List Event
  pub hub : Hub

pub data Step (s : System) : System → Type 0 where
  commit :
      (e : Event)
      → latest_version s.table < e.version
      → Step s (record s { table = s.table ++ (e ∷ []) })
  -- The end of `initialize`.
  start :
      s.hub.ready ≡ false
      → s.hub.closed ≡ false
      → Step s (record s { hub = record s.hub { version = latest_version s.table; ready = true } })
  -- One round of `catchUp`.
  read :
      s.hub.ready ≡ true
      → Step s
          (record s { hub = read_batch (list_after s.table s.hub.version s.hub.batch_size) s.hub })
  notify : (payload : Option ℕ) → Step s (record s { hub = notified payload s.hub })
  woken : Step s (record s { hub = record s.hub { wake = false } })
  join : (id : ℕ) (h : Hub) → subscribe id s.hub ≡ inr h → Step s (record s { hub = h })
  leave :
      (id : ℕ)
      → Step s (record s {
        hub = record s.hub {
          subscriptions = update_where (λ r. r.id == id) close s.hub.subscriptions;
        };
      })
  take :
      (id : ℕ)
      → Step s (record s {
        hub = record s.hub {
          subscriptions = update_where (λ r. r.id == id) receive s.hub.subscriptions;
        };
      })
  stop : Step s (record s { hub = shutdown s.hub })

pub data Reach (options : HubOptions) : System → Type 0 where
  boot : Reach options (record { table = []; hub = new_hub options })
  later : {s t : System} → Reach options s → Step s t → Reach options t
