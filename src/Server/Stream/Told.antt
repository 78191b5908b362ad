-- ===== src/Server/Stream/Told.antt =====
-- Nothing that is announced to an open stream is lost.
use futo_notes_server.Events.{
  Change, insert_change, put_pending, sort_changes, about, enqueue, close, drain,
}
use futo_notes_server.Events.Pending.{highest}
use futo_notes_server.Prelude.{
  ◌≡◌, refl, [], ◌∷◌, true, false, Text, List, ◌++◌, Bool-cases, arith, ap, max, ◌∙◌, ◌∙◌,
  if◌then◌else◌, ltb, inl, text_eq→≡, inr, ℕ, append-nil, Bool, if-elim,
}
use futo_notes_server.Server.Stream.{
  ready, ping, changed, announces, closes, leaves, wakes, ticks, SyncEvent, Moment, tell_changes,
  stream_step, Stream, handle_sync_events, receive_wake, stream_moments, tell_drained,
}

abbrev pub changes_told : List SyncEvent → List Change
changes_told [] = []
changes_told (changed c ∷ es) = c ∷ changes_told es
changes_told (ready ∷ es) = changes_told es
changes_told (ping ∷ es) = changes_told es

abbrev pub announced : List Moment → List Change
announced [] = []
announced (announces c ∷ ms) = c ∷ announced ms
announced (closes ∷ ms) = announced ms
announced (leaves ∷ ms) = announced ms
announced (wakes b ∷ ms) = announced ms
announced (ticks b ∷ ms) = announced ms

changes_told-append :
    (a b : List SyncEvent) → changes_told (a ++ b) ≡ changes_told a ++ changes_told b
changes_told-append [] b = refl
changes_told-append (changed c ∷ a) b = ap (λ l. c ∷ l) (changes_told-append a b)
changes_told-append (ready ∷ a) b = changes_told-append a b
changes_told-append (ping ∷ a) b = changes_told-append a b

changes_told-tell : (cs : List Change) → changes_told (tell_changes cs) ≡ cs
changes_told-tell [] = refl
changes_told-tell (c ∷ cs) = ap (λ l. c ∷ l) (changes_told-tell cs)

module _ (id : Text) where
  highest-append : (a b : List Change) → highest id (a ++ b) ≡ max (highest id a) (highest id b)
  unfolding highest
  highest-append [] b = omega arith
  highest-append (c ∷ a) b = let rest = highest-append a b in ground arith

  highest-insert_change :
      (c : Change) (cs : List Change) → highest id (insert_change c cs) ≡ highest id (c ∷ cs)
  unfolding highest insert_change
  highest-insert_change c [] = refl
  highest-insert_change c (d ∷ ds) = let rest = highest-insert_change c ds in ground arith

  highest-sort_changes : (cs : List Change) → highest id (sort_changes cs) ≡ highest id cs
  unfolding highest sort_changes
  highest-sort_changes [] = refl
  highest-sort_changes (c ∷ cs) =
      highest-insert_change c (sort_changes cs)
      ∙ ap
          (λ n.
            if about id c then (if ltb n c.current_version then c.current_version else n) else n)
          (highest-sort_changes cs)

  highest-put_pending :
      (c : Change) (cs : List Change)
      → highest id (put_pending c.collection_id c.current_version cs) ≡ highest id (c ∷ cs)
  unfolding highest put_pending
  highest-put_pending c [] = refl
  highest-put_pending c (d ∷ ds) = elim (Bool-cases (about c.collection_id d)) [
    | inl e ↦
        let same = text_eq→≡ d.collection_id c.collection_id e in
        elim (Bool-cases (ltb d.current_version c.current_version)) [
          | inl later ↦ rw (e, later, same) (ground arith)
          | inr before ↦ rw (e, before, same) (ground arith)
        ]
    | inr e ↦ let rest = highest-put_pending c ds in rw (e, rest) (ground arith)
  ]

-- While the stream and its subscription are open, what was told and what still waits make up what
-- was announced, and nothing waits without a signal in the wake channel.
abbrev IsWaiting : Stream → (Text → ℕ) → Type 0
IsWaiting s goal =
    s.ended ≡ false
    → s.subscription.closed ≡ false
    → ((id : Text)
        → max (highest id (changes_told s.told)) (highest id s.subscription.pending) ≡ goal id)
      × (s.subscription.wake ≡ false → s.subscription.pending ≡ [])

-- What a moment adds to the goal.
abbrev goal_after : Moment → (Text → ℕ) → Text → ℕ
goal_after m goal id = max (goal id) (highest id (announced (m ∷ [])))

ended-IsWaiting : (s : Stream) (goal : Text → ℕ) → s.ended ≡ true → IsWaiting s goal
ended-IsWaiting s goal over open_still = absurd (cc)

announces-IsWaiting :
    (c : Change) (s : Stream) (goal : Text → ℕ)
    → IsWaiting s goal
    → IsWaiting (stream_step (announces c) s) (goal_after (announces c) goal)
unfolding stream_step enqueue highest
announces-IsWaiting c s goal h = elim (Bool-cases s.subscription.closed) [
  | inl over ↦ rw over (λ on open_still. absurd (cc))
  | inr still ↦ rw still (λ on open_still.
      let (all, quiet) = h on still in
      (
        (λ id.
            let before = all id in
            let put = highest-put_pending id c s.subscription.pending in rw put (ground arith)),
        (λ silent. absurd (cc)),
      ))
]

told-highest :
    (id : Text) (told : List SyncEvent) (cs : List Change)
    → highest id (changes_told (told ++ tell_changes (sort_changes cs)))
      ≡ max (highest id (changes_told told)) (highest id cs)
told-highest id told cs =
    ap (highest id) (
      changes_told-append told (tell_changes (sort_changes cs))
      ∙ ap (λ l. changes_told told ++ l) (changes_told-tell (sort_changes cs)))
    ∙ highest-append id (changes_told told) (sort_changes cs)
    ∙ ap (λ n. max (highest id (changes_told told)) n) (highest-sort_changes id cs)

wakes-IsWaiting :
    (writes : Bool) (s : Stream) (goal : Text → ℕ)
    → IsWaiting s goal
    → IsWaiting (stream_step (wakes writes) s) (goal_after (wakes writes) goal)
unfolding stream_step receive_wake drain tell_drained highest
wakes-IsWaiting false s goal h = elim (Bool-cases s.subscription.wake) [
  | inl signal ↦ elim (Bool-cases s.subscription.closed) [
    | inl over ↦ rw (signal, over) (λ on open_still. absurd (cc))
    | inr still ↦ rw (signal, still) (λ on open_still. absurd (cc))
  ]
  | inr silent ↦ elim (Bool-cases s.subscription.closed) [
    | inl over ↦ rw (silent, over) (λ on open_still. absurd (cc))
    | inr still ↦
        rw (silent, still)
          (λ on open_still.
            let (all, quiet) = h on still in
            ((λ id. let before = all id in ground arith), (λ no_signal. quiet silent)))
  ]
]
wakes-IsWaiting true s goal h = elim (Bool-cases s.subscription.wake) [
  | inl signal ↦ elim (Bool-cases s.subscription.closed) [
    | inl over ↦ rw (signal, over) (λ on open_still. absurd (cc))
    | inr still ↦
        rw (signal, still)
          (λ on open_still.
            let (all, quiet) = h on still in
            (
              (λ id.
                  let before = all id in
                  let now = told-highest id s.told s.subscription.pending in rw now (ground arith)),
              (λ no_signal. refl),
            ))
  ]
  | inr silent ↦ elim (Bool-cases s.subscription.closed) [
    | inl over ↦ rw (silent, over) (λ on open_still. absurd (cc))
    | inr still ↦
        rw (silent, still)
          (λ on open_still.
            let (all, quiet) = h on still in
            ((λ id. let before = all id in ground arith), (λ no_signal. quiet silent)))
  ]
]

step-IsWaiting :
    (m : Moment) (s : Stream) (goal : Text → ℕ)
    → IsWaiting s goal
    → IsWaiting (stream_step m s) (goal_after m goal)
unfolding stream_step close highest
step-IsWaiting (announces c) s goal h = announces-IsWaiting c s goal h
step-IsWaiting closes s goal h = λ on open_still. absurd (cc)
step-IsWaiting leaves s goal h = λ on open_still. absurd (cc)
step-IsWaiting (wakes b) s goal h = wakes-IsWaiting b s goal h
step-IsWaiting (ticks false) s goal h = λ on open_still. absurd (cc)
step-IsWaiting (ticks true) s goal h = λ on open_still.
    let (all, quiet) = h on open_still in
    (
      (λ id.
          let before = all id in
          rw (changes_told-append s.told (ping ∷ []), append-nil (changes_told s.told))
            (ground arith)),
      quiet,
    )

moments-IsWaiting :
    (ms : List Moment) (s : Stream) (goal : Text → ℕ)
    → IsWaiting s goal
    → IsWaiting (stream_moments ms s) (λ id. max (goal id) (highest id (announced ms)))
unfolding stream_moments highest
moments-IsWaiting [] s goal h = λ on open_still.
    let (all, quiet) = h on open_still in
    ((λ id. let before = all id in omega (arith, before)), quiet)
moments-IsWaiting (m ∷ ms) s goal h =
    if-elim (λ t. IsWaiting t (λ id. max (goal id) (highest id (announced (m ∷ ms))))) s.ended s
      (stream_moments ms (stream_step m s))
      (λ over. ended-IsWaiting s (λ id. max (goal id) (highest id (announced (m ∷ ms)))) over)
      (λ on. λ still open_still.
        let (all, quiet) =
          moments-IsWaiting ms (stream_step m s) (goal_after m goal) (step-IsWaiting m s goal h)
            still open_still in
        ((λ id. all id ∙ goals id m), quiet))
  where
    goals :
        (id : Text) (m : Moment)
        → max (goal_after m goal id) (highest id (announced ms))
          ≡ max (goal id) (highest id (announced (m ∷ ms)))
    goals id (announces c) = ground arith
    goals id closes = omega arith
    goals id leaves = omega arith
    goals id (wakes b) = omega arith
    goals id (ticks b) = omega arith

-- However announcements, drains and pings take turns: while a stream has not ended and its
-- subscription is open, the highest version told for a collection and the one that still waits make
-- up the highest that was announced since it began; and when no signal is in the wake channel, all
-- of it has been told.
pub handle_sync_events-told :
    (address : ℕ) (user_id : Text) (ms : List Moment)
    → (handle_sync_events address user_id ms).ended ≡ false
    → (handle_sync_events address user_id ms).subscription.closed ≡ false
    → (id : Text)
    → (max
          (highest id (changes_told (handle_sync_events address user_id ms).told))
          (highest id (handle_sync_events address user_id ms).subscription.pending)
        ≡ highest id (announced ms))
      × ((handle_sync_events address user_id ms).subscription.wake ≡ false
          → highest id (changes_told (handle_sync_events address user_id ms).told)
            ≡ highest id (announced ms))
unfolding handle_sync_events highest
handle_sync_events-told address user_id ms on open_still id =
    let (all, quiet) =
      moments-IsWaiting ms _ (λ id. 0) (λ on open_still. ((λ id. refl), λ silent. refl)) on
        open_still in
    let whole = all id in
    (
      omega (arith, whole),
      λ silent. let none_waits = ap (highest id) (quiet silent) in omega (arith, whole, none_waits),
    )
