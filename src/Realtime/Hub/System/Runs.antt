-- ===== src/Realtime/Hub/System/Runs.antt =====
-- Every step keeps what the readers were promised, and so does every run.
use cairnops.Common.{
  ℕ, ◌≤◌, ◌<◌, ◌≡◌, refl, Bool, true, false, not, Option, none, some, List, [], ◌∷◌, ◌++◌, leb, ◌⊎◌,
  if◌then◌else◌, length, arith, ap, ◌∙◌, sym, subst, Bool-cases, inl, inr, All, All-mono,
  All-update_where, update_where, append_assoc,
}
use cairnops.Realtime.Table.{Event, list_after, latest_version}
use cairnops.Realtime.Table.Window.{IsAscending, window}
use cairnops.Realtime.Hub.{
  HubOptions, Subscription, Hub, HubError, end_locked, close, receive, shutdown, subscribe,
  notified, signal, read_batch, broadcast, new_hub,
}
use cairnops.Realtime.Hub.System.{
  System, Step, commit, start, read, notify, woken, join, leave, take, stop, Reach, boot, later,
}
use cairnops.Realtime.Hub.System.Feed.{IsFed, Inv, broadcast-Inv}

IsAscending-snoc :
    (b : ℕ) (table : List Event) (e : Event)
    → b < e.version
    → latest_version table < e.version
    → IsAscending b table
    → IsAscending b (table ++ (e ∷ []))
unfolding latest_version
IsAscending-snoc b [] e h k s = (h, tt)
IsAscending-snoc b (x ∷ xs) e h k s =
    (s.0, IsAscending-snoc x.version xs e (omega (arith, k)) (omega (arith, k)) s.1)

latest_version-snoc :
    (table : List Event) (e : Event) → latest_version table ≤ latest_version (table ++ (e ∷ []))
unfolding latest_version
latest_version-snoc [] e = omega arith
latest_version-snoc (x ∷ xs) e = omega (arith, latest_version-snoc xs e)

-- A row of a later version is in no window up to an earlier one.
window-snoc :
    (a v : ℕ) (table : List Event) (e : Event)
    → v < e.version
    → window a v (table ++ (e ∷ [])) ≡ window a v table
window-snoc a v [] e h = ground arith
window-snoc a v (x ∷ xs) e h = ground (arith, window-snoc a v xs e h)

close-IsFed :
    (table : List Event) (v capacity : ℕ) (s : Subscription)
    → IsFed table v capacity s
    → IsFed table v capacity (close s)
unfolding close
close-IsFed table v capacity s f = elim (Bool-cases s.registered) [
  | inl r ↦ rw r (record {
    since = f.since;
    rest = f.rest;
    log = f.log;
    whole = λ h. cc;
    shut = refl;
    fits = f.fits;
  })
  | inr r ↦
      subst
        (λ b.
          IsFed table v capacity
            (if not b then s else record s { registered = false; is_closed = true }))
        (sym r) f
]

end_locked-IsFed :
    (error : HubError) (table : List Event) (v capacity : ℕ) (s : Subscription)
    → IsFed table v capacity s
    → IsFed table v capacity (end_locked error s)
unfolding end_locked
end_locked-IsFed error table v capacity s f = elim (Bool-cases s.registered) [
  | inl r ↦ rw r (record {
    since = f.since;
    rest = f.rest;
    log = f.log;
    whole = λ h. cc;
    shut = refl;
    fits = f.fits;
  })
  | inr r ↦
      subst
        (λ b. IsFed table v capacity (
          if not b
          then s
          else record s { registered = false; is_closed = true; error = some error }))
        (sym r) f
]

receive-IsFed :
    (table : List Event) (v capacity : ℕ) (s : Subscription)
    → IsFed table v capacity s
    → IsFed table v capacity (receive s)
unfolding receive
receive-IsFed table v capacity s f = go s.events refl
  where
    go : (events : List Event) → s.events ≡ events → IsFed table v capacity (receive s)
    go [] e =
        subst
          (λ events. IsFed table v capacity (elim events [
            | [] ↦ s
            | x ∷ xs ↦ record s { events = xs; taken = s.taken ++ (x ∷ []) }
          ]))
          (sym e) f
    go (x ∷ xs) e = rw e (record {
      since = f.since;
      rest = f.rest;
      log =
          ap (λ z. z ++ f.rest) (append_assoc s.taken (x ∷ []) xs ∙ ap (λ z. s.taken ++ z) (sym e))
          ∙ f.log;
      whole = f.whole;
      shut = f.shut;
      fits = omega (arith, ap length e, f.fits);
    })

window_none : (v : ℕ) (table : List Event) → window v v table ≡ []
window_none v [] = refl
window_none v (e ∷ es) = ground (arith, window_none v es)

subscribe-IsFed :
    (table : List Event) (v capacity id : ℕ)
    → IsFed table v capacity (record {
      id = id;
      version = v;
      events = [];
      taken = [];
      registered = true;
      is_closed = false;
      error = none;
    })
subscribe-IsFed table v capacity id = record {
  since = omega arith;
  rest = [];
  log = sym (window_none v table);
  whole = λ h. refl;
  shut = refl;
  fits = omega arith;
}

All-IsFed :
    (s : System) (p : Subscription → Bool) (f : Subscription → Subscription)
    → ((x : Subscription)
        → IsFed s.table s.hub.version s.hub.buffer_size x
        → IsFed s.table s.hub.version s.hub.buffer_size (f x))
    → Inv s
    → All (IsFed s.table s.hub.version s.hub.buffer_size) (update_where p f s.hub.subscriptions)
All-IsFed s p f keeps inv =
    All-update_where (IsFed s.table s.hub.version s.hub.buffer_size) p f s.hub.subscriptions
      (λ x h e. keeps x h) inv.fed

update_where-nil :
    (p : Subscription → Bool) (f : Subscription → Subscription) (xs : List Subscription)
    → xs ≡ []
    → update_where p f xs ≡ []
update_where-nil p f xs e = rw e

-- A change to subscriptions that keeps what each was promised.
update-Inv :
    (s : System) (shut : Bool) (p : Subscription → Bool) (f : Subscription → Subscription)
    → ((x : Subscription)
        → IsFed s.table s.hub.version s.hub.buffer_size x
        → IsFed s.table s.hub.version s.hub.buffer_size (f x))
    → Inv s
    → Inv (record s {
      hub = record s.hub { closed = shut; subscriptions = update_where p f s.hub.subscriptions };
    })
update-Inv s shut p f keeps inv = record {
  ascending = inv.ascending;
  behind = inv.behind;
  fed = All-IsFed s p f keeps inv;
  unready = λ h. update_where-nil p f s.hub.subscriptions (inv.unready h);
}

wake-Inv : (s : System) (b : Bool) → Inv s → Inv (record s { hub = record s.hub { wake = b } })
wake-Inv s b inv = record {
  ascending = inv.ascending;
  behind = inv.behind;
  fed = inv.fed;
  unready = inv.unready;
}

notified-Inv :
    (s : System) (payload : Option ℕ) → Inv s → Inv (record s { hub = notified payload s.hub })
unfolding notified signal
notified-Inv s none inv = wake-Inv s true inv
notified-Inv s (some version) inv = elim (Bool-cases (leb version s.hub.version)) [
  | inl e ↦ rw e inv
  | inr e ↦ rw e (wake-Inv s true inv)
]

inr_eq : {a b : Hub} → ◌≡◌ {A = HubError ⊎ Hub} (inr a) (inr b) → a ≡ b
inr_eq e = cc

read_batch_cases :
    (P : Hub → Type 0) (events : List Event) (hub : Hub)
    → P hub
    → P (broadcast events hub)
    → P (read_batch events hub)
unfolding read_batch
read_batch_cases P [] hub same next = same
read_batch_cases P (e ∷ es) hub same next = next

subscribe-Inv :
    (s : System) (id : ℕ) (h : Hub)
    → Inv s
    → subscribe id s.hub ≡ inr h
    → Inv (record s { hub = h })
unfolding subscribe
subscribe-Inv s id h inv e = elim (Bool-cases s.hub.closed) [
  | inl shut ↦ cc (rw shut at e)
  | inr live ↦ elim (Bool-cases s.hub.ready) [
    | inl r ↦
        subst (λ k. Inv (record s { hub = k })) (inr_eq (rw (live, r) at e))
          (record {
            ascending = inv.ascending;
            behind = inv.behind;
            fed = (subscribe-IsFed s.table s.hub.version s.hub.buffer_size id, inv.fed);
            unready = λ h. cc;
          })
    | inr r ↦ cc (rw (live, r) at e)
  ]
]

pub read-Inv :
    (s : System)
    → Inv s
    → s.hub.ready ≡ true
    → Inv (record s { hub = read_batch (list_after s.table s.hub.version s.hub.batch_size) s.hub })
unfolding read_batch
read-Inv s inv r =
    read_batch_cases (λ h. Inv (record s { hub = h }))
      (list_after s.table s.hub.version s.hub.batch_size) s.hub inv (broadcast-Inv s inv r)

pub Step-Inv : {s t : System} → Step s t → Inv s → Inv t
unfolding shutdown
Step-Inv {s} (commit e h) inv = record {
  ascending = IsAscending-snoc 0 s.table e (omega (arith, h)) h inv.ascending;
  behind = omega (arith, inv.behind, latest_version-snoc s.table e);
  fed =
      All-mono (IsFed s.table s.hub.version s.hub.buffer_size)
        (IsFed (s.table ++ (e ∷ [])) s.hub.version s.hub.buffer_size) s.hub.subscriptions
        (λ x f. record {
          since = f.since;
          rest = f.rest;
          log =
              f.log
              ∙ sym (window-snoc x.version s.hub.version s.table e (omega (arith, h, inv.behind)));
          whole = f.whole;
          shut = f.shut;
          fits = f.fits;
        })
        inv.fed;
  unready = inv.unready;
}
Step-Inv {s} (start r c) inv = record {
  ascending = inv.ascending;
  behind = omega arith;
  fed = rw (inv.unready r) tt;
  unready = λ h. cc;
}
Step-Inv {s} (read r) inv = read-Inv s inv r
Step-Inv {s} (notify payload) inv = notified-Inv s payload inv
Step-Inv {s} woken inv = wake-Inv s false inv
Step-Inv {s} (join id h e) inv = subscribe-Inv s id h inv e
Step-Inv {s} (leave id) inv = update-Inv s s.hub.closed _ close (close-IsFed s.table _ _) inv
Step-Inv {s} (take id) inv = update-Inv s s.hub.closed _ receive (receive-IsFed s.table _ _) inv
Step-Inv {s} stop inv =
    update-Inv s true _ (end_locked HubError.closed) (end_locked-IsFed HubError.closed s.table _ _)
      inv

Reach-Inv : {options : HubOptions} {s : System} → Reach options s → Inv s
unfolding new_hub latest_version
Reach-Inv {options} boot = record {
  ascending = tt;
  behind = omega arith;
  fed = tt;
  unready = λ h. refl;
}
Reach-Inv (later r st) = Step-Inv st (Reach-Inv r)

-- The events that a reader has received and those that wait in its channel are, in order, the events of
-- the table after the version it subscribed at and up to the hub's version, less a final part that is
-- empty as long as the subscription stays registered; its channel is closed exactly when it is not, and
-- never holds more than the buffer size. This holds after any run from a new hub, whatever the order of commits, reads,
-- notifications, subscriptions, departures and the shutdown, where events are committed in the order of
-- their versions.
pub Reach-All-IsFed :
    {options : HubOptions} {s : System}
    → Reach options s
    → All (IsFed s.table s.hub.version s.hub.buffer_size) s.hub.subscriptions
Reach-All-IsFed r = (Reach-Inv r).fed
