-- ===== src/Tests/Hub.antt =====
-- The hub of internal/realtime at concrete inputs.
use cairnops.Common.{
  ℕ, ◌≡◌, refl, true, false, none, some, List, [], ◌∷◌, arith, All, inl, inr, select,
}
use cairnops.Common.Int.{pos}
use cairnops.Realtime.Table.{Event, insert_version, order_by_version, list_after, latest_version}
use cairnops.Realtime.Hub.{
  HubOptions, Subscription, Hub, HubError, with_defaults, new_hub, subscribe, signal, notified,
  end_locked, deliver, last_version, broadcast, read_batch, catch_up, receive, size,
}
use cairnops.Realtime.Hub.Delay.{initialize, listen_delays, delays-IsBetween, IsBetween}
use cairnops.Realtime.Hub.System.{
  System, Reach, boot, later, commit, start, read, join, take, notify,
}
use cairnops.Realtime.Hub.System.Feed.{IsFed, Inv}
use cairnops.Realtime.Hub.System.Runs.{Reach-All-IsFed}
use cairnops.Realtime.Hub.System.CatchUp.{catch_up-reads_all, stored, unread}

abbrev event : ℕ → Event
event v = record {
  version = v;
  kind = "target.changed";
  entity_type = "target";
  entity_id = "a";
  occurred_at = 0;
}

-- A buffer of one event, and batches of two.
abbrev options : HubOptions
options = record {
  batch_size = pos 2;
  buffer_size = pos 1;
  fallback_interval = pos 0;
  retry_delay = pos 0;
  max_retry_delay = pos 0;
}

-- A reader that joined after the first event takes the second, and then lags behind two more.
unfoldable lagging_run : (s : System) × Reach options s
unfolding new_hub with_defaults size latest_version subscribe notified read_batch list_after
    broadcast
lagging_run = (
  _,
  later
      (later
        (later
          (later
            (later
              (later
                (later
                  (later (later (later boot (commit (event 1) (omega arith))) (start refl refl))
                    (join 7 _ refl))
                  (commit (event 2) (omega arith)))
                (notify (some 2)))
              (read refl))
            (take 7))
          (commit (event 3) (omega arith)))
        (commit (event 4) (omega arith)))
      (read refl),
)

lagging_run_hub :
    (lagging_run.0.hub.version ≡ 4)
    × (lagging_run.0.hub.wake ≡ true)
    × (select (λ s. s.registered) lagging_run.0.hub.subscriptions ≡ [])
unfolding lagging_run insert_version order_by_version list_after latest_version subscribe signal
    notified end_locked deliver last_version broadcast read_batch receive new_hub with_defaults size
lagging_run_hub = (refl, refl, refl)

Reach-All-IsFed_example :
    All
      (IsFed lagging_run.0.table lagging_run.0.hub.version lagging_run.0.hub.buffer_size)
      lagging_run.0.hub.subscriptions
Reach-All-IsFed_example = Reach-All-IsFed (lagging_run.1)

-- A hub that has read two of five events, in batches of two.
abbrev five : List Event
five = event 1 ∷ event 2 ∷ event 3 ∷ event 4 ∷ event 5 ∷ []

abbrev reader : Subscription
reader = record {
  id = 1;
  version = 2;
  events = [];
  taken = [];
  registered = true;
  is_closed = false;
  error = none;
}

abbrev behind : System
behind = record {
  table = five;
  hub = record {
    batch_size = 2;
    buffer_size = 8;
    wake = true;
    version = 2;
    ready = true;
    closed = false;
    subscriptions = reader ∷ [];
  };
}

behind-Inv : Inv behind
unfolding latest_version
behind-Inv = record {
  ascending = (omega arith, (omega arith, (omega arith, (omega arith, (omega arith, tt)))));
  behind = omega arith;
  fed = (
    record {
      since = omega arith;
      rest = [];
      log = refl;
      whole = λ h. refl;
      shut = refl;
      fits = omega arith;
    },
    tt,
  );
  unready = λ h. cc;
}

catch_up-reads_all_example :
    (h : Hub) × (catch_up 4 (stored five) behind.hub ≡ some (none, h))
    × (unread five h.version ≡ [])
    × Inv (record behind { hub = h })
catch_up-reads_all_example = catch_up-reads_all 4 behind behind-Inv refl (omega arith) (omega arith)

delays-IsBetween_example :
    All
      (IsBetween (with_defaults options).retry_delay (with_defaults options).max_retry_delay)
      (initialize
        (with_defaults options).max_retry_delay
        (with_defaults options).retry_delay
        (inl HubError.read_failed ∷ inl HubError.read_failed ∷ inr 4 ∷ [])
        behind.hub).0
    × All (IsBetween (with_defaults options).retry_delay (with_defaults options).max_retry_delay) (
        listen_delays
          (with_defaults options).retry_delay
          (with_defaults options).max_retry_delay
          (with_defaults options).retry_delay
          (false ∷ true ∷ []))
unfolding with_defaults
delays-IsBetween_example =
    delays-IsBetween options (inl HubError.read_failed ∷ inl HubError.read_failed ∷ inr 4 ∷ [])
      (false ∷ true ∷ []) behind.hub (omega arith)
