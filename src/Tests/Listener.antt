-- ===== src/Tests/Listener.antt =====
-- The listener meets two notifications before a receive, and loses its connection.
use order_sync.Base.{true, false, List, [], ◌∷◌, ◌≡◌, ◌≢◌, refl}
use order_sync.Contracts.{Error, Result}
use order_sync.Postgres.Repositories.Watch.{
  Connection, watch, Received, Phase, Happening, receive, new_listener, happen, follow_listener,
}
use order_sync.Postgres.Repositories.Watch.Delivery.{wakeup_not_lost, listener_ends}

wakeup_not_lost_example :
    (receive
      (follow_listener (Happening.wait_error Error.database false ∷ Happening.deferred ∷ []) (
        happen Happening.notification
          (follow_listener (Happening.notification ∷ []) new_listener))).wakeups).0
    ≡ Received.value tt
unfolding follow_listener happen
wakeup_not_lost_example =
    wakeup_not_lost (Happening.notification ∷ [])
      (Happening.wait_error Error.database false ∷ Happening.deferred ∷ []) refl (refl, (refl, tt))

listener_ends_example :
    let l = follow_listener (Happening.notification ∷ []) new_listener in
    let m =
      follow_listener
        (Happening.wait_error Error.database false
          ∷ Happening.deferred
          ∷ Happening.deferred
          ∷ Happening.deferred
          ∷ [])
        l in
    ((ys : List Happening) → (follow_listener ys l).phase ≢ Phase.stuck)
    × (m.phase ≡ Phase.gone)
    × (m.released ≡ true)
    × ((receive m.errors).0 ≡ Received.value Error.database)
    × ((receive (receive m.errors).1).0 ≡ Received.ended)
    × (m.wakeups ≡ record (l.wakeups) { closed = true })
unfolding follow_listener happen
listener_ends_example = listener_ends (Happening.notification ∷ []) Error.database refl

-- A LISTEN that fails gives the connection back.
listen_fails : watch true (Result.ok tt) (Result.err Error.database) ≡ (
  Result.err (Error.wrap "listen for sync job changes: %w" Error.database),
  Connection.returned,
)
unfolding watch
listen_fails = refl
