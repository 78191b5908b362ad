-- ===== src/Store/Sql.antt =====
-- What the SQL statements of the Go code do to a table: WHERE, UPDATE, DELETE, RETURNING.
use futo_notes_server.Prelude.{
  ◌≡◌, Bool, true, false, Option, none, some, List, [], ◌∷◌, if◌then◌else◌, All, arith, Bool-cases,
  if-elim, inl, inr, subst,
}

module _ {ℓ} {R : Type ℓ} where
  -- SELECT ... WHERE p, read by QueryRow: the first row, or sql.ErrNoRows.
  unfoldable pub select_row : (R → Bool) → List R → Option R
  select_row p [] = none
  select_row p (r ∷ rs) = if p r then some r else select_row p rs

  -- UPDATE ... SET f WHERE p.
  unfoldable pub update_where : (R → Bool) → (R → R) → List R → List R
  update_where p f [] = []
  update_where p f (r ∷ rs) = (if p r then f r else r) ∷ update_where p f rs

  -- SELECT ... WHERE p.
  unfoldable pub select_where : (R → Bool) → List R → List R
  select_where p [] = []
  select_where p (r ∷ rs) = let rest = select_where p rs in if p r then r ∷ rest else rest

  -- DELETE ... WHERE p.
  unfoldable pub delete_where : (R → Bool) → List R → List R
  delete_where p [] = []
  delete_where p (r ∷ rs) = let rest = delete_where p rs in if p r then rest else r ∷ rest

  -- The row that was found passes the test.
  pub select_row-test : (p : R → Bool) (rs : List R) (r : R) → select_row p rs ≡ some r → p r ≡ true
  unfolding select_row
  select_row-test p [] r h = cc
  select_row-test p (x ∷ rs) r h = ground (arith, select_row-test p rs r)

module _ {ℓ} {R : Type ℓ} (p : R → Bool) where
  pub select_where-test : (rs : List R) → All (λ r. p r ≡ true) (select_where p rs)
  unfolding select_where
  select_where-test [] = tt
  select_where-test (r ∷ rs) =
      if-elim (All (λ r. p r ≡ true)) (p r) _ _ (λ e. (e, select_where-test rs))
        (λ _. select_where-test rs)

module _ {ℓ κ} {R : Type ℓ} (P : R → Type κ) where
  pub All-select_row :
      (p : R → Bool) (rs : List R) (r : R) → select_row p rs ≡ some r → All P rs → P r
  unfolding select_row
  All-select_row p [] r h all = absurd (cc)
  All-select_row p (x ∷ rs) r h all = elim (Bool-cases (p x)) [
    | inl e ↦ let same : x ≡ r = ground arith in subst P same all.0
    | inr e ↦ All-select_row p rs r (ground arith) all.1
  ]

  pub All-delete_where : (p : R → Bool) (rs : List R) → All P rs → All P (delete_where p rs)
  unfolding delete_where
  All-delete_where p [] h = tt
  All-delete_where p (r ∷ rs) h =
      let rest = All-delete_where p rs h.1 in
      if-elim (All P) (p r) (delete_where p rs) (r ∷ delete_where p rs) (λ _. rest)
        (λ _. (h.0, rest))

  pub All-select_where : (p : R → Bool) (rs : List R) → All P rs → All P (select_where p rs)
  unfolding select_where
  All-select_where p [] h = tt
  All-select_where p (r ∷ rs) h =
      let rest = All-select_where p rs h.1 in
      if-elim (All P) (p r) (r ∷ select_where p rs) (select_where p rs) (λ _. (h.0, rest))
        (λ _. rest)

module _ {ℓ κ μ} {R : Type ℓ} (P : R → Type κ) (Q : R → Type μ) where
  pub All-update_where :
      (p : R → Bool) (f : R → R) (rs : List R)
      → ((r : R) → P r → p r ≡ true → Q (f r))
      → ((r : R) → P r → p r ≡ false → Q r)
      → All P rs
      → All Q (update_where p f rs)
  unfolding update_where
  All-update_where p f [] hit miss h = tt
  All-update_where p f (r ∷ rs) hit miss h =
      (if-elim Q (p r) (f r) r (hit r h.0) (miss r h.0), All-update_where p f rs hit miss h.1)
