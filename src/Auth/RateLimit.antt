-- ===== src/Auth/RateLimit.antt =====
-- The limit on login attempts: internal/auth/ratelimit.go.
pub mod Window
use futo_notes_server.Store.Sql.{delete_where, select_row}
use futo_notes_server.Prelude.{
  ◌≡◌, refl, [], ◌∷◌, true, false, none, some, zero, suc, ℕ, Text, Option, Bool, List,
  if◌then◌else◌, leb, text_eq, ◌-◌, ◌+◌, ◌-◌, ltb, ◌+◌,
}

abbrev pub login_rate_limit : ℕ
login_rate_limit = 10

-- A minute, in the unit of the clock (milliseconds).
abbrev pub login_rate_window : ℕ
login_rate_window = 60000

-- An entry of the map.
pub record RateWindow : Type 0 where
  pub key : Text
  pub start : ℕ
  pub count : ℕ

abbrev pub has_key : Text → RateWindow → Bool
has_key key w = text_eq w.key key

-- now.Sub(w.start) >= loginRateWindow; an earlier `now` is not past the window either way.
abbrev pub is_over : ℕ → RateWindow → Bool
is_over now w = leb login_rate_window (now - w.start)

-- w.count++ on the key's entry, which is made when there is none.
unfoldable pub count_attempt : Text → ℕ → List RateWindow → List RateWindow
count_attempt key now [] = record { key = key; start = now; count = 1 } ∷ []
count_attempt key now (w ∷ ws) =
    if has_key key w then record w { count = w.count + 1 } ∷ ws else w ∷ count_attempt key now ws

pub data Attempt : Type 0 where
  allowed : Attempt
  refused : ℕ → Attempt

abbrev pub judge : ℕ → Option RateWindow → Attempt
judge now none = allowed
judge now (some w) =
    if ltb login_rate_limit w.count then refused (login_rate_window + w.start - now) else allowed

-- Allow: the answer, and the map it leaves.
unfoldable pub allow : Text → ℕ → List RateWindow → Attempt × List RateWindow
allow key now windows =
    let counted = count_attempt key now (delete_where (is_over now) windows) in
    (judge now (select_row (has_key key) counted), counted)
