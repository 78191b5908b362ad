-- ===== src/Store/Dialect/Rebound.antt =====
-- Which bytes of a query Rebind rewrites.
use futo_notes_server.Store.Dialect.{rebind_placeholders, rebind, starts_number}
use futo_notes_server.Prelude.{
  ◌≡◌, refl, [], ◌∷◌, Text, length, Bool-cases, ◌==◌, ◌&&◌, inl, arith, inr, true, false, some, ℕ,
  suc, zero, ◌≤◌, ◌⊎◌, get_elem?,
}
use futo_notes_server.Store.Monad.{postgres, sqlite}

starts_number-rebind : (s : Text) → starts_number (rebind_placeholders s) ≡ starts_number s
unfolding rebind_placeholders
starts_number-rebind [] = refl
starts_number-rebind (c ∷ s) = elim (Bool-cases (c == b'$' && starts_number s)) [
  | inl sign ↦ rw sign (ground arith)
  | inr other ↦ rw other refl
]

rebind_placeholders-again :
    (s : Text) → rebind_placeholders (rebind_placeholders s) ≡ rebind_placeholders s
unfolding rebind_placeholders
rebind_placeholders-again [] = refl
rebind_placeholders-again (c ∷ s) =
    let rest = rebind_placeholders-again s in
    let same = starts_number-rebind s in
    elim (Bool-cases (c == b'$' && starts_number s)) [
      | inl sign ↦ rw (sign, rest) refl
      | inr other ↦ rw (other, same, other, rest) refl
    ]

length-rebind_placeholders : (s : Text) → length (rebind_placeholders s) ≡ length s
unfolding rebind_placeholders
length-rebind_placeholders [] = refl
length-rebind_placeholders (c ∷ s) = let rest = length-rebind_placeholders s in omega (arith, rest)

-- A numbered placeholder of Postgres begins here: a '$' before a digit from 1.
abbrev pub IsPlaceholder : Text → ℕ → Type 0
IsPlaceholder query i =
    (get_elem? query i ≡ some b'$')
    × ((d : ℕ) × (get_elem? query (suc i) ≡ some d) × (b'1' ≤ d) × (d ≤ b'9'))

-- What the result has there.
abbrev pub Rewrites : Text → Text → ℕ → Type 0
Rewrites query result i =
    IsPlaceholder query i × (get_elem? result i ≡ some b'?')
    ⊎ (¬ IsPlaceholder query i) × (get_elem? result i ≡ get_elem? query i)

starts_number-digit :
    (s : Text)
    → starts_number s ≡ true
    → (d : ℕ) × (get_elem? s 0 ≡ some d) × (b'1' ≤ d) × (d ≤ b'9')
starts_number-digit [] h = absurd (cc)
starts_number-digit (d ∷ s) h = (d, refl, ground arith, ground arith)

no_digit :
    (s : Text) (d : ℕ) → starts_number s ≡ false → get_elem? s 0 ≡ some d → b'1' ≤ d → d ≤ b'9' → ⊥
no_digit [] d h e low high = cc
no_digit (x ∷ s) d h e low high = ground arith

rebind_placeholders-Rewrites : (query : Text) (i : ℕ) → Rewrites query (rebind_placeholders query) i
unfolding rebind_placeholders
rebind_placeholders-Rewrites [] i = inr (λ h. absurd (cc), refl)
rebind_placeholders-Rewrites (c ∷ s) (suc i) = rebind_placeholders-Rewrites s i
rebind_placeholders-Rewrites (c ∷ s) zero = elim (Bool-cases (c == b'$')) [
  | inr other ↦ rw other (inr (λ h. absurd (ground arith), refl))
  | inl dollar ↦ elim (Bool-cases (starts_number s)) [
    | inl sign ↦ rw (dollar, sign) (inl ((ground arith, starts_number-digit s sign), refl))
    | inr bare ↦
        rw (dollar, bare)
          (inr (λ h. let (here, (d, next, low, high)) = h in no_digit s d bare next low high, refl))
  ]
]

-- On Postgres, a query stays as it is. On SQLite, the bytes of a query that change are exactly the
-- '$' before a digit from 1, which becomes '?': at every place the result has '?' where such a '$'
-- stood, and else what the query has there. The result is as long as the query, and rebinding it once
-- more changes nothing.
pub rebind-Rewrites :
    (query : Text) (i : ℕ)
    → (rebind postgres query ≡ query)
      × Rewrites query (rebind sqlite query) i
      × (length (rebind sqlite query) ≡ length query)
      × (rebind sqlite (rebind sqlite query) ≡ rebind sqlite query)
unfolding rebind
rebind-Rewrites query i = (
  refl,
  rebind_placeholders-Rewrites query i,
  length-rebind_placeholders query,
  rebind_placeholders-again query,
)
