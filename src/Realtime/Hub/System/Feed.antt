-- ===== src/Realtime/Hub/System/Feed.antt =====
-- What a reader has received, after any run: the events of the table from its start on, in order.
use cairnops.Common.{
  ℕ, ◌≤◌, ◌≡◌, true, false, not, List, [], ◌++◌, length, arith, ap, ◌∙◌, sym, subst, All,
}
use cairnops.Common.{All-update_where_to, append_assoc, append-nil, update_where}
use cairnops.Realtime.Table.{Event, list_after, latest_version}
use cairnops.Realtime.Table.Window.{
  IsAscending, window, window_split, read-window, list_after-ascending,
}
use cairnops.Realtime.Hub.{Subscription, deliver, last_version, broadcast}
use cairnops.Realtime.Table.Last.{batch, last_version_up, last_version_latest}
use cairnops.Realtime.Hub.Delivery.{IsDelivered, deliver-IsDelivered}
use cairnops.Realtime.Hub.System.{System}

-- `rest` is what a subscription that ended did not get.
pub record IsFed (table : List Event) (version capacity : ℕ) (s : Subscription) : Type 0 where
  pub since : s.version ≤ version
  pub rest : List Event
  pub log : (s.taken ++ s.events) ++ rest ≡ window s.version version table
  pub whole : s.registered ≡ true → rest ≡ []
  pub shut : s.is_closed ≡ not s.registered
  pub fits : length s.events ≤ capacity

pub record Inv (s : System) : Type 0 where
  pub ascending : IsAscending 0 s.table
  pub behind : s.hub.version ≤ latest_version s.table
  pub fed : All (IsFed s.table s.hub.version s.hub.buffer_size) s.hub.subscriptions
  pub unready : s.hub.ready ≡ false → s.hub.subscriptions ≡ []

module _ (table batch : List Event) (v w capacity : ℕ) (ascending : IsAscending 0 table)
    (up : v ≤ w) (new : window v w table ≡ batch) where
  -- A broadcast to a subscription that is registered.
  deliver-IsFed :
      (s : Subscription)
      → IsFed table v capacity s
      → s.registered ≡ true
      → IsFed table w capacity (deliver capacity batch s)
  deliver-IsFed s f r =
      let sent : IsDelivered capacity batch s (deliver capacity batch s) =
        deliver-IsDelivered capacity batch s r (f.shut ∙ ap not r) f.fits in
      let t : Subscription = deliver capacity batch s in
      record {
        since = ground (arith, sent.since, f.since, up);
        rest = sent.rest;
        log =
            append_assoc t.taken t.events sent.rest
            ∙ ap (λ x. x ++ (t.events ++ sent.rest)) sent.taken
            ∙ ap (λ x. s.taken ++ x) sent.log
            ∙ sym (append_assoc s.taken s.events batch)
            ∙ ap (λ x. x ++ batch)
                (sym (append-nil (s.taken ++ s.events))
                  ∙ ap (λ x. (s.taken ++ s.events) ++ x) (sym (f.whole r))
                  ∙ f.log)
            ∙ ap (λ x. window s.version v table ++ x) (sym new)
            ∙ sym (window_split 0 s.version v w table f.since up ascending)
            ∙ ap (λ a. window a w table) (sym sent.since);
        whole = sent.whole;
        shut = sent.shut;
        fits = sent.fits;
      }

  -- A subscription that ended before the broadcast misses it.
  ended-IsFed :
      (s : Subscription)
      → IsFed table v capacity s
      → s.registered ≡ false
      → IsFed table w capacity s
  ended-IsFed s f r = record {
    since = omega (arith, f.since, up);
    rest = f.rest ++ batch;
    log =
        sym (append_assoc (s.taken ++ s.events) f.rest batch)
        ∙ ap (λ x. x ++ batch) f.log
        ∙ ap (λ x. window s.version v table ++ x) (sym new)
        ∙ sym (window_split 0 s.version v w table f.since up ascending);
    whole = λ h. cc;
    shut = f.shut;
    fits = f.fits;
  }

-- What was read of an ascending table, broadcast, keeps the invariant.
pub broadcast-Inv :
    (s : System)
    → Inv s
    → s.hub.ready ≡ true
    → Inv (record s { hub = broadcast (list_after s.table s.hub.version s.hub.batch_size) s.hub })
unfolding broadcast batch
broadcast-Inv s inv r =
    let v : ℕ = s.hub.version in
    let n : ℕ = s.hub.batch_size in
    let same : list_after s.table v n ≡ batch s.table v n =
      list_after-ascending s.table v n inv.ascending in
    subst
      (λ b. Inv (record s {
        hub = record s.hub {
          subscriptions =
              update_where (λ x. x.registered) (deliver s.hub.buffer_size b) s.hub.subscriptions;
          version = last_version s.hub.version b;
        };
      }))
      (sym same)
      (record {
        ascending = inv.ascending;
        behind = last_version_latest s.table v n inv.behind;
        fed =
            All-update_where_to (IsFed s.table v s.hub.buffer_size)
              (IsFed s.table (last_version v (batch s.table v n)) s.hub.buffer_size)
              (λ x. x.registered) (deliver s.hub.buffer_size (batch s.table v n))
              s.hub.subscriptions
              (deliver-IsFed s.table (batch s.table v n) v _ s.hub.buffer_size inv.ascending
                (last_version_up s.table v n)
                (read-window 0 v n s.table (omega arith) inv.ascending))
              (ended-IsFed s.table (batch s.table v n) v _ s.hub.buffer_size inv.ascending
                (last_version_up s.table v n)
                (read-window 0 v n s.table (omega arith) inv.ascending))
              inv.fed;
        unready = λ h. cc;
      })
