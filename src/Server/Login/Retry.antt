-- ===== src/Server/Login/Retry.antt =====
-- What a client that is told to retry can count on.
use futo_notes_server.Store.Keys.{HasKey, HasKey-select_row, Pairwise-delete_where}
use futo_notes_server.Auth.RateLimit.Window.{attempts, allow-attempts}
use futo_notes_server.Store.Sql.{select_row, delete_where}
use futo_notes_server.Server.Login.{retry_seconds}
use futo_notes_server.Prelude.{
  ◌≡◌, refl, [], ◌∷◌, true, none, some, Text, ℕ, ◌≤◌, List, Option, ◌≤◌, ◌*◌, ◌≢◌, ◌*◌, ◌≢◌, All,
  if-elim, ◌+◌, Bool-cases, arith, ◌-◌, ◌-◌, inl, ltb, inr, text_eq→≡, All-mono, text_eq_iff, ap,
  ◌∙◌, ◌∙◌,
}
use futo_notes_server.Auth.RateLimit.{
  allowed, refused, allow, RateWindow, count_attempt, judge, login_rate_window, is_over, has_key,
  login_rate_limit,
}

abbrev pub window_key : RateWindow → Text
window_key w = w.key

count_attempt-apart :
    (a key : Text) (now : ℕ) (ws : List RateWindow)
    → a ≢ key
    → All (λ w. a ≢ window_key w) ws
    → All (λ w. a ≢ window_key w) (count_attempt key now ws)
unfolding count_attempt
count_attempt-apart a key now [] d h = (d, tt)
count_attempt-apart a key now (w ∷ ws) d h =
    if-elim (All (λ x. a ≢ window_key x)) (has_key key w) _ _ (λ e. (h.0, h.1))
      (λ e. (h.0, count_attempt-apart a key now ws d h.1))

-- The map keeps one entry for each key.
count_attempt-HasKey :
    (key : Text) (now : ℕ) (ws : List RateWindow)
    → HasKey window_key ws
    → HasKey window_key (count_attempt key now ws)
unfolding count_attempt
count_attempt-HasKey key now [] h = (tt, tt)
count_attempt-HasKey key now (w ∷ ws) h = elim (Bool-cases (has_key key w)) [
  | inl hit ↦ rw hit (h.0, h.1)
  | inr miss ↦ rw miss (
    count_attempt-apart w.key key now ws (λ e. ground (arith, text_eq_iff w.key key)) h.0,
    count_attempt-HasKey key now ws h.1,
  )
]

over-gone :
    (key : Text) (now : ℕ) (ws : List RateWindow)
    → All (λ w. window_key w ≡ key → is_over now w ≡ true) ws
    → select_row (has_key key) (delete_where (is_over now) ws) ≡ none
unfolding select_row delete_where
over-gone key now [] h = refl
over-gone key now (w ∷ ws) h = elim (Bool-cases (is_over now w)) [
  | inl over ↦ rw over (over-gone key now ws h.1)
  | inr lasts ↦ elim (Bool-cases (has_key key w)) [
    | inl hit ↦ let over = h.0 (text_eq→≡ w.key key hit) in absurd (cc)
    | inr miss ↦ rw (lasts, miss) (over-gone key now ws h.1)
  ]
]

retry_seconds-enough : (t : ℕ) → (t ≤ retry_seconds t * 1000) × (1 ≤ retry_seconds t)
unfolding retry_seconds
retry_seconds-enough t = (omega arith, omega arith)

-- A refusal tells when the key's own window ends.
refused-window :
    (key : Text) (now t : ℕ) (found : Option RateWindow)
    → judge now found ≡ refused t
    → (w : RateWindow) × (found ≡ some w) × (t ≡ login_rate_window + w.start - now)
refused-window key now t none e = absurd (cc)
refused-window key now t (some w) e = elim (Bool-cases (ltb login_rate_limit w.count)) [
  | inl over ↦ (w, refl, ground arith)
  | inr under ↦ absurd (ground arith)
]

-- A client that is refused is allowed again once it has waited for the seconds of Retry-After,
-- which are at least one, if nothing else of its address came in between and the limiter's map has
-- one window for each address.
pub retry_seconds-allow :
    (key : Text) (now later t : ℕ) (ws : List RateWindow)
    → HasKey window_key ws
    → (allow key now ws).0 ≡ refused t
    → now + retry_seconds t * 1000 ≤ later
    → (1 ≤ retry_seconds t) × ((allow key later (allow key now ws).1).0 ≡ allowed)
unfolding allow attempts
retry_seconds-allow key now later t ws keys told wait =
    let live = delete_where (is_over now) ws in
    let left = count_attempt key now live in
    let (w, found, time) = refused-window key now t (select_row (has_key key) left) told in
    let (enough, one) = retry_seconds-enough t in
    let own =
      HasKey-select_row window_key key left w
        (count_attempt-HasKey key now live (Pairwise-delete_where _ (is_over now) ws keys)) found in
    let over : is_over later w ≡ true = ground arith in
    let gone = over-gone key later left (
      All-mono (λ r. window_key r ≡ key → r ≡ w) (λ r. window_key r ≡ key → is_over later r ≡ true)
        left (λ r same e. ap (is_over later) (same e) ∙ over) own) in
    (
      one,
      elim (allow-attempts key later left).0 [
        | inl (_, let_in) ↦ let_in
        | inr (full, _) ↦ absurd (ground (arith))
      ],
    )
