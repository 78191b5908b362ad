-- ===== src/Auth/RateLimit/Window.antt =====
-- What the limiter promises, told by the attempts that a key has made in its window.
use futo_notes_server.Store.Sql.{delete_where, select_row}
use futo_notes_server.Auth.RateLimit.{
  count_attempt, allow, RateWindow, is_over, has_key, login_rate_limit, allowed, login_rate_window,
  refused, judge,
}
use futo_notes_server.Prelude.{
  ◌≡◌, refl, [], ◌∷◌, true, false, none, some, ℕ, Option, Text, List, text_eq, ltb, All, if-elim,
  Bool-cases, arith, ◌+◌, ◌<◌, ◌<◌, inl, text_eq→≡, ◌⊎◌, ◌⊎◌, inr, text_eq_refl, ap, ◌-◌, ◌∙◌, ◌∙◌,
}

abbrev IsOpen : ℕ → RateWindow → Type 0
IsOpen now w = is_over now w ≡ false

-- What the entry of a key counts.
abbrev counted : Option RateWindow → ℕ
counted none = 0
counted (some w) = w.count

-- The attempts of a key that still count at a time.
unfoldable pub attempts : Text → ℕ → List RateWindow → ℕ
attempts key now windows = counted (select_row (has_key key) (delete_where (is_over now) windows))

delete_over-IsOpen :
    (now : ℕ) (ws : List RateWindow) → All (IsOpen now) (delete_where (is_over now) ws)
unfolding delete_where
delete_over-IsOpen now [] = tt
delete_over-IsOpen now (w ∷ ws) =
    if-elim (All (IsOpen now)) (is_over now w) _ _ (λ _. delete_over-IsOpen now ws)
      (λ e. (e, delete_over-IsOpen now ws))

delete_over-same :
    (now : ℕ) (ws : List RateWindow) → All (IsOpen now) ws → delete_where (is_over now) ws ≡ ws
unfolding delete_where
delete_over-same now [] h = refl
delete_over-same now (w ∷ ws) h = rw (h.0, delete_over-same now ws h.1)

count_attempt-IsOpen :
    (key : Text) (now : ℕ) (ws : List RateWindow)
    → All (IsOpen now) ws
    → All (IsOpen now) (count_attempt key now ws)
unfolding count_attempt
count_attempt-IsOpen key now [] h = (ground arith, tt)
count_attempt-IsOpen key now (w ∷ ws) h =
    if-elim (All (IsOpen now)) (has_key key w) _ _ (λ _. (h.0, h.1))
      (λ _. (h.0, count_attempt-IsOpen key now ws h.1))

count_attempt-own :
    (key : Text) (now : ℕ) (ws : List RateWindow)
    → All (IsOpen now) ws
    → (w : RateWindow) × (select_row (has_key key) (count_attempt key now ws) ≡ some w)
      × (w.count ≡ counted (select_row (has_key key) ws) + 1)
      × (now < w.start + login_rate_window)
unfolding count_attempt select_row
count_attempt-own key now [] h =
    (record { key = key; start = now; count = 1 }, rw (text_eq_refl key) refl, refl, omega arith)
count_attempt-own key now (w ∷ ws) h = elim (Bool-cases (has_key key w)) [
  | inl e ↦ (record w { count = w.count + 1 }, rw (e, e) refl, rw e refl, ground (arith, h.0))
  | inr e ↦
      let (x, there, count, within) = count_attempt-own key now ws h.1 in
      (x, rw (e, e) there, rw e count, within)
]

count_attempt-other :
    (key other : Text) (now : ℕ) (ws : List RateWindow)
    → text_eq key other ≡ false
    → select_row (has_key other) (count_attempt key now ws) ≡ select_row (has_key other) ws
unfolding count_attempt select_row
count_attempt-other key other now [] d = rw d
count_attempt-other key other now (w ∷ ws) d = elim (Bool-cases (has_key key w)) [
  | inl e ↦
      let same : w.key ≡ key = text_eq→≡ w.key key e in
      let differs : text_eq w.key other ≡ false = rw same d in rw (e, differs)
  | inr e ↦ rw (e, count_attempt-other key other now ws d)
]

-- An attempt is allowed exactly when fewer than ten of the key's attempts count so far, and a
-- refusal tells a positive time; either way the attempt is counted for its key
-- and the counts of the other keys stay.
pub allow-attempts :
    (key : Text) (now : ℕ) (ws : List RateWindow)
    → ((ltb (attempts key now ws) login_rate_limit ≡ true) × ((allow key now ws).0 ≡ allowed)
        ⊎ (ltb (attempts key now ws) login_rate_limit ≡ false)
          × ((t : ℕ) × ((allow key now ws).0 ≡ refused t) × (0 < t)))
      × (attempts key now (allow key now ws).1 ≡ attempts key now ws + 1)
      × ((other : Text)
          → text_eq key other ≡ false
          → attempts other now (allow key now ws).1 ≡ attempts other now ws)
unfolding allow attempts
allow-attempts key now ws =
    let live = delete_where (is_over now) ws in
    let all : All (IsOpen now) live = delete_over-IsOpen now ws in
    let (w, there, count, within) = count_attempt-own key now live all in
    let after : delete_where (is_over now) (count_attempt key now live)
        ≡ count_attempt key now live =
      delete_over-same now (count_attempt key now live) (count_attempt-IsOpen key now live all) in
    let told : (allow key now ws).0 ≡ judge now (some w) = ap (judge now) there in
    (
      elim (Bool-cases (ltb login_rate_limit w.count)) [
        | inl e ↦
            inr (ground arith, (login_rate_window + w.start - now, told ∙ rw e refl, omega arith))
        | inr e ↦ inl (ground arith, told ∙ rw e refl)
      ],
      ap (λ l. counted (select_row (has_key key) l)) after ∙ ap counted there ∙ count,
      λ other d.
          ap (λ l. counted (select_row (has_key other) l)) after
          ∙ ap counted (count_attempt-other key other now live d),
    )
