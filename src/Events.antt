-- ===== src/Events.antt =====
-- The notifications of internal/events/events.go: the hub, its subscriptions and what they hold.
-- A subscription is shared between the hub and the handler that waits on it, so it is a row of a
-- store under its address, and `registered` says whether the hub's map still holds it.
pub mod Pending
pub mod Listener
use futo_notes_server.Store.Sql.{update_where}
use futo_notes_server.Store.Monad.{Notification}
use futo_notes_server.Prelude.{
  ◌≡◌, refl, [], ◌∷◌, true, false, none, some, zero, suc, Text, List, Option, ℕ, if◌then◌else◌,
  Bool, ltb, ◌&&◌, ◌&&◌, text_eq, ◌==◌, ◌==◌, ◌||◌, ◌||◌,
}

pub record Change : Type 0 where
  pub collection_id : Text
  pub current_version : ℕ

-- `wake` is the channel of capacity one: whether a signal waits in it.
pub record Subscription : Type 0 where
  pub address : ℕ
  pub user_id : Text
  pub pending : List Change
  pub wake : Bool
  pub closed : Bool
  pub registered : Bool

abbrev pub about : Text → Change → Bool
about id c = text_eq c.collection_id id

-- pending[collectionID] = currentVersion, unless a version as high is there.
unfoldable pub put_pending : Text → ℕ → List Change → List Change
put_pending id version [] = record { collection_id = id; current_version = version } ∷ []
put_pending id version (c ∷ cs) =
    if about id c
    then (if ltb c.current_version version then record c { current_version = version } else c) ∷ cs
    else c ∷ put_pending id version cs

unfoldable pub enqueue : Text → ℕ → Subscription → Subscription
enqueue id version s =
    if s.closed then s else record s { pending = put_pending id version s.pending; wake = true }

unfoldable pub close : Subscription → Subscription
close s = record s { closed = true }

-- sort.Slice by collection ID, on bytes.
unfoldable pub text_less : Text → Text → Bool
text_less [] [] = false
text_less [] (b ∷ t) = true
text_less (a ∷ s) [] = false
text_less (a ∷ s) (b ∷ t) = ltb a b || (a == b && text_less s t)

unfoldable pub insert_change : Change → List Change → List Change
insert_change c [] = c ∷ []
insert_change c (d ∷ ds) =
    if text_less d.collection_id c.collection_id then d ∷ insert_change c ds else c ∷ d ∷ ds

unfoldable pub sort_changes : List Change → List Change
sort_changes [] = []
sort_changes (c ∷ cs) = insert_change c (sort_changes cs)

-- Drain: the changes, unless the subscription is closed.
unfoldable pub drain : Subscription → Option (List Change) × Subscription
drain s = if s.closed then (none, s) else (some (sort_changes s.pending), record s { pending = [] })

abbrev pub Hub : Type 0
Hub = List Subscription

unfoldable pub subscribe : ℕ → Text → Hub → Hub
subscribe address user_id hub =
    record {
      address = address;
      user_id = user_id;
      pending = [];
      wake = false;
      closed = false;
      registered = true;
    }
    ∷ hub

abbrev pub at_address : ℕ → Subscription → Bool
at_address address s = s.address == address

unfoldable pub unsubscribe : ℕ → Hub → Hub
unsubscribe address =
    update_where (at_address address) (λ s. record (close s) { registered = false })

abbrev pub listens : Text → Subscription → Bool
listens user_id s = s.registered && text_eq s.user_id user_id

-- Hub.Publish.
unfoldable pub publish_to : Notification → Hub → Hub
publish_to n = update_where (listens n.user_id) (enqueue n.collection_id n.current_version)

unfoldable pub close_all : Hub → Hub
close_all = update_where (λ s. s.registered) (λ s. record (close s) { registered = false })
