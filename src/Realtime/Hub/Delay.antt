-- ===== src/Realtime/Hub/Delay.antt =====
-- The loops of initialize and listen: what they answer, and how long they wait between two attempts.
use cairnops.Common.Int.{ℤ, pos, negsuc, ◌≤ℤ◌, ◌<ℤ◌, min_ℤ, scale64, wrap64_pos}
use cairnops.Common.{
  ℕ, ◌*◌, ◌^◌, ◌<◌, ◌≡◌, Bool, true, Option, none, some, List, [], ◌∷◌, if◌then◌else◌, arith, ◌⊎◌,
  inl, inr, All,
}
use cairnops.Realtime.Hub.{Hub, HubError, HubOptions, with_defaults}

-- `min(delay*2, hub.options.MaxRetryDelay)`.
unfoldable pub next_delay : ℤ → ℤ → ℤ
next_delay most delay = min_ℤ (scale64 2 delay) most

-- `reads` is what LatestVersion answers, until the context ends: the delays slept, and the hub where it
-- returns true.
unfoldable pub initialize : ℤ → ℤ → List (HubError ⊎ ℕ) → Hub → List ℤ × Option Hub
unfolding next_delay
initialize most delay [] hub = ([], none)
initialize most delay (inr version ∷ reads) hub =
    ([], some (record hub { version = version; ready = true }))
initialize most delay (inl error ∷ reads) hub =
    let rest = initialize most (next_delay most delay) reads hub in (delay ∷ rest.0, rest.1)

-- `sessions` is what Listen did, until the context ends: whether it was established.
unfoldable pub listen_delays : ℤ → ℤ → ℤ → List Bool → List ℤ
unfolding next_delay
listen_delays retry most delay [] = []
listen_delays retry most delay (established ∷ sessions) =
    let slept = if established then retry else delay in
    slept ∷ listen_delays retry most (next_delay most slept) sessions

abbrev pub IsBetween : ℤ → ℤ → ℤ → Type 0
IsBetween least most delay = (least ≤ℤ delay) × (delay ≤ℤ most)

double_pos : (d : ℕ) → d < 2 ^ 62 → scale64 2 (pos d) ≡ pos (2 * d)
unfolding scale64
double_pos d h = ground (arith, wrap64_pos (2 * d))

next_delay-IsBetween :
    (least most delay : ℤ)
    → pos 1 ≤ℤ least
    → most <ℤ pos (2 ^ 62)
    → IsBetween least most delay
    → IsBetween least most (next_delay most delay)
unfolding next_delay
next_delay-IsBetween least (pos m) (pos d) p q b =
    rw (double_pos d (omega (arith, q, b.1))) (ground (arith, p, q, b))
next_delay-IsBetween least (negsuc m) (pos d) p q b = absurd (omega (arith, b.1))
next_delay-IsBetween least most (negsuc d) p q b = absurd (omega (arith, b.0, p))

-- NewHub keeps sizes and intervals that are positive, and a longest delay that is not below the first.
pub with_defaults-IsBetween :
    (o : HubOptions)
    → (pos 1 ≤ℤ (with_defaults o).batch_size)
      × (pos 1 ≤ℤ (with_defaults o).buffer_size)
      × (pos 1 ≤ℤ (with_defaults o).fallback_interval)
      × (pos 1 ≤ℤ (with_defaults o).retry_delay)
      × ((with_defaults o).retry_delay ≤ℤ (with_defaults o).max_retry_delay)
unfolding with_defaults
with_defaults-IsBetween o = ground arith

initialize-All-IsBetween :
    (least most delay : ℤ) (reads : List (HubError ⊎ ℕ)) (hub : Hub)
    → pos 1 ≤ℤ least
    → most <ℤ pos (2 ^ 62)
    → IsBetween least most delay
    → All (IsBetween least most) (initialize most delay reads hub).0
unfolding initialize
initialize-All-IsBetween least most delay [] hub p q b = tt
initialize-All-IsBetween least most delay (inr version ∷ reads) hub p q b = tt
initialize-All-IsBetween least most delay (inl error ∷ reads) hub p q b = (
  b,
  initialize-All-IsBetween least most (next_delay most delay) reads hub p q
      (next_delay-IsBetween least most delay p q b),
)

listen_delays-All-IsBetween :
    (retry most delay : ℤ) (sessions : List Bool)
    → pos 1 ≤ℤ retry
    → most <ℤ pos (2 ^ 62)
    → retry ≤ℤ most
    → IsBetween retry most delay
    → All (IsBetween retry most) (listen_delays retry most delay sessions)
unfolding listen_delays
listen_delays-All-IsBetween retry most delay [] p q r b = tt
listen_delays-All-IsBetween retry most delay (established ∷ sessions) p q r b = (
  slept,
  listen_delays-All-IsBetween retry most (next_delay most (if established then retry else delay))
      sessions p q r (next_delay-IsBetween retry most _ p q slept),
)
  where
    slept : IsBetween retry most (if established then retry else delay)
    slept = ground arith

-- From the options that NewHub keeps, where its longest delay is below 2 ^ 62 ns, every delay that
-- initialize and listen sleep between two attempts lies between the first retry delay and the longest:
-- the doubling neither overflows nor passes it.
pub delays-IsBetween :
    (o : HubOptions) (reads : List (HubError ⊎ ℕ)) (sessions : List Bool) (hub : Hub)
    → (with_defaults o).max_retry_delay <ℤ pos (2 ^ 62)
    → All
        (IsBetween (with_defaults o).retry_delay (with_defaults o).max_retry_delay)
        (initialize (with_defaults o).max_retry_delay (with_defaults o).retry_delay reads hub).0
      × All (IsBetween (with_defaults o).retry_delay (with_defaults o).max_retry_delay) (
          listen_delays
            (with_defaults o).retry_delay
            (with_defaults o).max_retry_delay
            (with_defaults o).retry_delay
            sessions)
delays-IsBetween o reads sessions hub q =
    let w : HubOptions = with_defaults o in
    let kept = with_defaults-IsBetween o in
    (
      initialize-All-IsBetween w.retry_delay w.max_retry_delay w.retry_delay reads hub (kept.3) q
          (omega arith, kept.4),
      listen_delays-All-IsBetween w.retry_delay w.max_retry_delay w.retry_delay sessions (kept.3) q
          (kept.4) (omega arith, kept.4),
    )
