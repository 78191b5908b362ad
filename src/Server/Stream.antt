-- ===== src/Server/Stream.antt =====
-- The event stream: handleSyncEventsWithInterval of cmd/server/sync.go. The hub and the handler take
-- turns, so a run is a sequence of what either does; a subscription is the handler's own.
pub mod Told
use futo_notes_server.Events.{Subscription, Change, enqueue, close, drain}
use futo_notes_server.Prelude.{
  ◌≡◌, refl, [], ◌∷◌, true, false, none, some, zero, suc, List, Bool, ℕ, if◌then◌else◌, Text,
  Option, ◌++◌, ◌++◌,
}

-- What is written to the client.
pub data SyncEvent : Type 0 where
  ready ping : SyncEvent
  changed : Change → SyncEvent

-- What happens next: the hub announces a change or closes the subscription, the handler receives from
-- the wake channel or from the ticker and its writes succeed or not, or the request is over.
pub data Moment : Type 0 where
  announces : Change → Moment
  closes leaves : Moment
  wakes ticks : Bool → Moment

pub record Stream : Type 0 where
  pub subscription : Subscription
  pub told : List SyncEvent
  pub ended : Bool

abbrev pub tell_changes : List Change → List SyncEvent
tell_changes [] = []
tell_changes (c ∷ cs) = changed c ∷ tell_changes cs

abbrev pub end_stream : Stream → Stream
end_stream s = record s { ended = true }

-- What Drain gives, and whether its changes can be written.
unfoldable pub tell_drained : Bool → Option (List Change) × Subscription → Stream → Stream
tell_drained writes (none, sub) s = end_stream (record s { subscription = sub })
tell_drained false (some changes, sub) s = end_stream (record s { subscription = sub })
tell_drained true (some changes, sub) s = record s {
  subscription = sub;
  told = s.told ++ tell_changes changes;
}

-- A receive from the wake channel: a signal, its end, or a wait that goes on.
unfoldable pub receive_wake : Bool → Stream → Stream
receive_wake writes s =
    if s.subscription.wake
    then tell_drained writes (drain (record s.subscription { wake = false })) s
    else (if s.subscription.closed then end_stream s else s)

unfoldable pub stream_step : Moment → Stream → Stream
stream_step (announces c) s = record s {
  subscription = enqueue c.collection_id c.current_version s.subscription;
}
stream_step closes s = record s { subscription = close s.subscription }
stream_step leaves s = end_stream s
stream_step (wakes writes) s = receive_wake writes s
stream_step (ticks true) s = record s { told = s.told ++ ping ∷ [] }
stream_step (ticks false) s = end_stream s

unfoldable pub stream_moments : List Moment → Stream → Stream
stream_moments [] s = s
stream_moments (m ∷ ms) s =
    let rest = stream_moments ms (stream_step m s) in if s.ended then s else rest

-- Subscribe comes before `ready` is sent.
unfoldable pub handle_sync_events : ℕ → Text → List Moment → Stream
handle_sync_events address user_id ms = stream_moments ms (record {
  subscription = record {
    address = address;
    user_id = user_id;
    pending = [];
    wake = false;
    closed = false;
    registered = true;
  };
  told = ready ∷ [];
  ended = false;
})
