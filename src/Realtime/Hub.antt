-- ===== src/Realtime/Hub.antt =====
-- internal/realtime/hub.go: the options, the subscriptions and the operations of the hub. Each operation
-- that takes the hub's lock is one function on the hub's state.
pub mod Delay
pub mod Delivery
pub mod System
use cairnops.Common.Int.{ℤ, pos, ◌≤ℤ◌, leb_ℤ, ltb_ℤ, max_ℤ, min_ℤ}
use cairnops.Common.{
  ℕ, zero, suc, ◌+◌, ◌*◌, ◌≡◌, Bool, true, false, Option, none, some, List, [], ◌∷◌, ◌++◌, map,
  length, ◌⊎◌, inl, inr, ltb, leb, ◌==◌, if◌then◌else◌, update_where, not, ◌&&◌, ◌||◌,
}
use cairnops.Realtime.Table.{Event, list_after, latest_version}

-- The sentinel errors of the hub; `read_failed` is an error of the source.
pub data HubError : Type 0 where
  unavailable lagging closed read_failed : HubError

pub record HubOptions : Type 0 where
  pub batch_size : ℤ
  pub buffer_size : ℤ
  pub fallback_interval : ℤ
  pub retry_delay : ℤ
  pub max_retry_delay : ℤ

abbrev pub second : ℕ
second = 1000000000

abbrev pub default_batch_size : ℤ
default_batch_size = pos 250

abbrev pub default_buffer_size : ℤ
default_buffer_size = pos 512

abbrev pub default_fallback_interval : ℤ
default_fallback_interval = pos (5 * second)

abbrev pub default_retry_delay : ℤ
default_retry_delay = pos second

abbrev pub default_max_retry_delay : ℤ
default_max_retry_delay = pos (30 * second)

abbrev or_default : ℤ → ℤ → ℤ
or_default value default = if leb_ℤ value (pos 0) then default else value

-- The options that NewHub keeps.
unfoldable pub with_defaults : HubOptions → HubOptions
with_defaults o =
    let retry = or_default o.retry_delay default_retry_delay in
    record {
      batch_size = or_default o.batch_size default_batch_size;
      buffer_size = or_default o.buffer_size default_buffer_size;
      fallback_interval = or_default o.fallback_interval default_fallback_interval;
      retry_delay = retry;
      max_retry_delay =
          if ltb_ℤ o.max_retry_delay retry
          then max_ℤ default_max_retry_delay retry
          else o.max_retry_delay;
    }

-- `events` is what the channel holds and `taken` what the reader received from it; `registered` says
-- whether the hub's map holds the subscription, `is_closed` whether its channel is closed.
pub record Subscription : Type 0 where
  pub id : ℕ
  pub version : ℕ
  pub events : List Event
  pub taken : List Event
  pub registered : Bool
  pub is_closed : Bool
  pub error : Option HubError

-- `wake` is the channel of capacity one: true while it holds a signal.
pub record Hub : Type 0 where
  pub batch_size : ℕ
  pub buffer_size : ℕ
  pub wake : Bool
  pub version : ℕ
  pub ready : Bool
  pub closed : Bool
  pub subscriptions : List Subscription

unfoldable pub size : ℤ → ℕ
size (pos n) = n
size (ℤ.negsuc n) = 0

unfoldable pub new_hub : HubOptions → Hub
unfolding with_defaults size
new_hub o =
    let kept = with_defaults o in
    record {
      batch_size = size kept.batch_size;
      buffer_size = size kept.buffer_size;
      wake = false;
      version = 0;
      ready = false;
      closed = false;
      subscriptions = [];
    }

-- `id` names the subscription, which in Go is the pointer itself.
unfoldable pub subscribe : ℕ → Hub → HubError ⊎ Hub
subscribe id hub =
    if hub.closed
    then inl HubError.closed
    else if not hub.ready
    then inl unavailable
    else inr (record hub {
      subscriptions =
          (record {
            id = id;
            version = hub.version;
            events = [];
            taken = [];
            registered = true;
            is_closed = false;
            error = none;
          })
          ∷ hub.subscriptions;
    })

unfoldable pub signal : Hub → Hub
signal hub = record hub { wake = true }

-- The payload of a notification, where it reads as an integer.
unfoldable pub notified : Option ℕ → Hub → Hub
unfolding signal
notified none hub = signal hub
notified (some version) hub = if leb version hub.version then hub else signal hub

unfoldable pub end_locked : HubError → Subscription → Subscription
end_locked error s =
    if not s.registered
    then s
    else record s { registered = false; is_closed = true; error = some error }

-- The loop `delivery` of broadcast.
unfoldable pub deliver : ℕ → List Event → Subscription → Subscription
unfolding end_locked
deliver capacity [] s = s
deliver capacity (e ∷ es) s =
    let rest = deliver capacity es (record s { events = s.events ++ (e ∷ []) }) in
    if ltb (length s.events) capacity then rest else end_locked lagging s

unfoldable pub last_version : ℕ → List Event → ℕ
last_version v [] = v
last_version v (e ∷ es) = last_version e.version es

unfoldable pub broadcast : List Event → Hub → Hub
unfolding last_version deliver
broadcast events hub = record hub {
  subscriptions =
      update_where (λ s. s.registered) (deliver hub.buffer_size events) hub.subscriptions;
  version = last_version hub.version events;
}

-- One round of catchUp: what it read is broadcast unless it is empty.
unfoldable pub read_batch : List Event → Hub → Hub
unfolding broadcast
read_batch [] hub = hub
read_batch (e ∷ es) hub = broadcast (e ∷ es) hub

-- `source v n` is what ListAfter returns.
unfoldable pub catch_up : ℕ → (ℕ → ℕ → HubError ⊎ List Event) → Hub → Option (Option HubError × Hub)
unfolding read_batch
catch_up zero source hub = none
catch_up (suc fuel) source hub = elim (source hub.version hub.batch_size) [
  | inl error ↦ some (some error, hub)
  | inr events ↦
      let next = read_batch events hub in
      let rest = catch_up fuel source next in
      if ltb (length events) hub.batch_size then some (none, next) else rest
]

unfoldable pub shutdown : Hub → Hub
unfolding end_locked
shutdown hub = record hub {
  closed = true;
  subscriptions = update_where (λ s. s.registered) (end_locked HubError.closed) hub.subscriptions;
}

-- Subscription.Close.
unfoldable pub close : Subscription → Subscription
close s = if not s.registered then s else record s { registered = false; is_closed = true }

-- A reader receives the next event of its channel.
unfoldable pub receive : Subscription → Subscription
receive s = elim s.events [
  | [] ↦ s
  | e ∷ es ↦ record s { events = es; taken = s.taken ++ (e ∷ []) }
]
