-- ===== src/Events/Pending.antt =====
-- What a subscription holds between two drains.
use futo_notes_server.Store.Sql.{select_row}
use futo_notes_server.Events.{put_pending, Change, Subscription, about, enqueue}
use futo_notes_server.Prelude.{
  ◌≡◌, refl, [], ◌∷◌, true, false, none, some, Text, List, Option, ℕ, if◌then◌else◌, text_eq, ltb,
  arith, Bool-cases, inl, text_eq→≡, inr, ◌∙◌, ◌∙◌, sym, text_eq_refl,
}

abbrev version_of : Option Change → ℕ
version_of none = 0
version_of (some c) = c.current_version

-- The version that waits for a collection, 0 when none does.
unfoldable pub waiting : Text → List Change → ℕ
waiting id cs = version_of (select_row (about id) cs)

-- The highest version that was announced for a collection.
unfoldable pub highest : Text → List Change → ℕ
highest id [] = 0
highest id (c ∷ cs) =
    let rest = highest id cs in
    if about id c then (if ltb rest c.current_version then c.current_version else rest) else rest

-- The announcements, the last one first.
unfoldable pub enqueue_all : List Change → Subscription → Subscription
enqueue_all [] s = s
enqueue_all (c ∷ cs) s = enqueue c.collection_id c.current_version (enqueue_all cs s)

-- A text that equals one of two differing texts differs from the other.
text_eq-apart : (a b c : Text) → text_eq a b ≡ true → text_eq a c ≡ false → text_eq c b ≡ false
text_eq-apart a b c e d = elim (Bool-cases (text_eq c b)) [
  | inl f ↦
      let same : a ≡ c = text_eq→≡ a b e ∙ sym (text_eq→≡ c b f) in
      absurd (cc (same, text_eq_refl c, d))
  | inr f ↦ f
]

waiting-put_pending :
    (id other : Text) (version : ℕ) (cs : List Change)
    → waiting other (put_pending id version cs) ≡ (
        if text_eq id other
        then (if ltb (waiting other cs) version then version else waiting other cs)
        else waiting other cs)
unfolding waiting put_pending select_row
waiting-put_pending id other version [] = ground arith
waiting-put_pending id other version (c ∷ cs) = elim (Bool-cases (about id c)) [
  | inl e ↦ rw (e, text_eq→≡ c.collection_id id e) (ground arith)
  | inr e ↦ elim (Bool-cases (about other c)) [
    | inl f ↦ rw (e, f, text_eq-apart c.collection_id other id f e)
    | inr f ↦ rw (e, f, waiting-put_pending id other version cs)
  ]
]

-- While a subscription is open, what waits for a collection is the highest version that was
-- announced since the last drain, whatever the order of the announcements.
pub waiting-enqueue_all :
    (id : Text) (cs : List Change) (s : Subscription)
    → s.closed ≡ false
    → s.pending ≡ []
    → ((enqueue_all cs s).closed ≡ false) × (waiting id (enqueue_all cs s).pending ≡ highest id cs)
unfolding enqueue_all enqueue highest
waiting-enqueue_all id [] s c e = (c, unfold waiting select_row in rw e refl)
waiting-enqueue_all id (x ∷ cs) s c e =
    let (c', p) = waiting-enqueue_all id cs s c e in
    rw c' (refl, waiting-put_pending x.collection_id id x.current_version _ ∙ rw p refl)
