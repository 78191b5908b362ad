-- ===== src/Events/Listener.antt =====
-- The listener of Postgres notifications, internal/events/listener.go: its loop over connections,
-- told by what each attempt to connect came to, until the context is cancelled.
use futo_notes_server.Store.Monad.{Notification}
use futo_notes_server.Store.Sql.{All-update_where}
use futo_notes_server.Events.{close_all, Subscription, Hub, publish_to}
use futo_notes_server.Prelude.{
  ◌≡◌, refl, [], ◌∷◌, false, none, some, List, Bool, ℕ, All, arith, ◌≤◌, Option, ◌≤◌, min,
  if◌then◌else◌, ◌*◌, ◌*◌, All-of,
}

-- In milliseconds.
abbrev pub initial_reconnect_delay : ℕ
initial_reconnect_delay = 1000

abbrev pub max_reconnect_delay : ℕ
max_reconnect_delay = 30000

-- One call of listenOnce: whether it connected, and the payloads that it heard until the connection
-- was lost, of which one that is no JSON is `none`.
pub record Connection : Type 0 where
  pub connected : Bool
  pub heard : List (Option Notification)

unfoldable pub hear : List (Option Notification) → Hub → Hub
hear [] hub = hub
hear (none ∷ ns) hub = hear ns hub
hear (some n ∷ ns) hub = hear ns (publish_to n hub)

unfoldable pub listen_once : Connection → Hub → Hub
listen_once c hub = if c.connected then hear c.heard (close_all hub) else hub

-- The delay after a connection that was lost or not made.
abbrev pub delay_after : Connection → ℕ → ℕ
delay_after c delay = if c.connected then initial_reconnect_delay else delay

-- The delays that are waited, and the hub that is left.
unfoldable pub listen : ℕ → List Connection → Hub → List ℕ × Hub
listen delay [] hub = ([], close_all hub)
listen delay (c ∷ cs) hub =
    let slept = delay_after c delay in
    let (delays, hub) =
      listen (min (slept * 2) max_reconnect_delay) cs (close_all (listen_once c hub)) in
    (slept ∷ delays, hub)

abbrev IsDelay : ℕ → Type 0
IsDelay d = (initial_reconnect_delay ≤ d) × (d ≤ max_reconnect_delay)

-- A subscription that the hub no longer serves.
abbrev pub IsDropped : Subscription → Type 0
IsDropped s = s.registered ≡ false

close_all-IsDropped : (hub : Hub) → All IsDropped (close_all hub)
unfolding close_all
close_all-IsDropped hub =
    All-update_where (λ (s : Subscription). Unit {0}) IsDropped (λ s. s.registered) _ hub
      (λ s u e. refl) (λ s u e. e) (All-of (λ (s : Subscription). Unit {0}) (λ s. tt) hub)

delay_after-IsDelay : (c : Connection) (d : ℕ) → IsDelay d → IsDelay (delay_after c d)
delay_after-IsDelay c d h = ground arith

-- Between two attempts the listener waits from one second to thirty, however often it fails and
-- however long it runs; and when it ends, no subscription is left in the hub, so that every client
-- has to connect and pull again.
pub listen-bounds :
    (delay : ℕ) (cs : List Connection) (hub : Hub)
    → initial_reconnect_delay ≤ delay
    → delay ≤ max_reconnect_delay
    → All (λ d. (initial_reconnect_delay ≤ d) × (d ≤ max_reconnect_delay)) (listen delay cs hub).0
      × All IsDropped (listen delay cs hub).1
unfolding listen
listen-bounds delay [] hub low high = (tt, close_all-IsDropped hub)
listen-bounds delay (c ∷ cs) hub low high =
    let (least, most) = delay_after-IsDelay c delay (low, high) in
    let (rest, dropped) =
      listen-bounds (min (delay_after c delay * 2) max_reconnect_delay) cs
        (close_all (listen_once c hub)) (omega arith) (omega arith) in
    (((least, most), rest), dropped)
