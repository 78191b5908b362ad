-- ===== src/Store/Keys.antt =====
-- Tables with a primary key, and properties of every pair of their rows.
use futo_notes_server.Store.Sql.{
  select_row, delete_where, update_where, All-delete_where, select_where, All-select_where,
}
use futo_notes_server.Prelude.{
  ◌≡◌, refl, Bool, Text, List, if◌then◌else◌, ◌≢◌, All, ◌≢◌, if-elim, text_eq, none, some, ◌∷◌, sym,
  [], ◌∙◌, ◌∙◌, Bool-cases, All-of, inl, arith, inr, subst, text_eq_iff, text_eq→≡, All-and,
  All-mono, ℕ, take, suc, All-take, zero,
}

abbrev pub Pairwise {ℓ κ} : {R : Type ℓ} → (R → R → Type κ) → List R → Type κ
Pairwise S [] = Unit
Pairwise S (r ∷ rs) = All (S r) rs × Pairwise S rs

abbrev pub updated {ℓ} : {R : Type ℓ} → (R → Bool) → (R → R) → R → R
updated p f r = if p r then f r else r

module _ {R : Type 0} (G : R → Type 0) (S T : R → R → Type 0) (p : R → Bool) (f : R → R)
    (keep : (a b : R) → G a → G b → S a b → T (updated p f a) (updated p f b)) where
  All-updated :
      (a : R) (rs : List R)
      → G a
      → All G rs
      → All (S a) rs
      → All (T (updated p f a)) (update_where p f rs)
  unfolding update_where
  All-updated a [] g gs h = tt
  All-updated a (r ∷ rs) g gs h = (keep a r g gs.0 h.0, All-updated a rs g gs.1 h.1)

  pub Pairwise-update_where :
      (rs : List R) → All G rs → Pairwise S rs → Pairwise T (update_where p f rs)
  unfolding update_where
  Pairwise-update_where [] g h = tt
  Pairwise-update_where (r ∷ rs) g h =
      (All-updated r rs g.0 g.1 h.0, Pairwise-update_where rs g.1 h.1)

module _ {R : Type 0} (S : R → R → Type 0) (p : R → Bool) where
  pub Pairwise-delete_where : (rs : List R) → Pairwise S rs → Pairwise S (delete_where p rs)
  unfolding delete_where
  Pairwise-delete_where [] h = tt
  Pairwise-delete_where (r ∷ rs) h =
      let rest = Pairwise-delete_where rs h.1 in
      if-elim (Pairwise S) (p r) (delete_where p rs) (r ∷ delete_where p rs) (λ _. rest)
        (λ _. (All-delete_where (S r) p rs h.0, rest))

module _ {R : Type 0} (S : R → R → Type 0) where
  pub Pairwise-select_where :
      (p : R → Bool) (rs : List R) → Pairwise S rs → Pairwise S (select_where p rs)
  unfolding select_where
  Pairwise-select_where p [] h = tt
  Pairwise-select_where p (r ∷ rs) h =
      let rest = Pairwise-select_where p rs h.1 in
      if-elim (Pairwise S) (p r) (r ∷ select_where p rs) (select_where p rs)
        (λ _. (All-select_where (S r) p rs h.0, rest)) (λ _. rest)

  pub Pairwise-take : (n : ℕ) (rs : List R) → Pairwise S rs → Pairwise S (take n rs)
  Pairwise-take zero rs h = tt
  Pairwise-take (suc n) [] h = tt
  Pairwise-take (suc n) (r ∷ rs) h = (All-take (S r) n rs h.0, Pairwise-take n rs h.1)

module _ {R : Type 0} (G : R → Type 0) (S T : R → R → Type 0)
    (weaken : (a b : R) → G a → G b → S a b → T a b) where
  pub Pairwise-mono : (rs : List R) → All G rs → Pairwise S rs → Pairwise T rs
  Pairwise-mono [] g h = tt
  Pairwise-mono (r ∷ rs) g h = (
    All-mono (λ x. G x × S r x) (T r) rs (λ x k. weaken r x g.0 k.0 k.1)
        (All-and G (S r) rs g.1 h.0),
    Pairwise-mono rs g.1 h.1,
  )

module _ {R : Type 0} (S T : R → R → Type 0) where
  pub Pairwise-and :
      (rs : List R) → Pairwise S rs → Pairwise T rs → Pairwise (λ a b. S a b × T a b) rs
  Pairwise-and [] h k = tt
  Pairwise-and (r ∷ rs) h k = (All-and (S r) (T r) rs h.0 k.0, Pairwise-and rs h.1 k.1)

module _ {R : Type 0} (key : R → Text) where
  -- No two rows have one key.
  abbrev pub HasKey : List R → Type 0
  HasKey = Pairwise (λ a b. key a ≢ key b)

  none_other :
      (k : Text) (c : R) (rs : List R)
      → key c ≡ k
      → All (λ b. key c ≢ key b) rs
      → All (λ r. key r ≡ k → r ≡ c) rs
  none_other k c [] e h = tt
  none_other k c (r ∷ rs) e h = ((λ e'. absurd (h.0 (e ∙ sym e'))), none_other k c rs e h.1)

  -- The row that a key selects is the only one with that key.
  pub HasKey-select_row :
      (k : Text) (rs : List R) (c : R)
      → HasKey rs
      → select_row (λ r. text_eq (key r) k) rs ≡ some c
      → All (λ r. key r ≡ k → r ≡ c) rs
  unfolding select_row
  HasKey-select_row k [] c h e = tt
  HasKey-select_row k (r ∷ rs) c h e = elim (Bool-cases (text_eq (key r) k)) [
    | inl hit ↦
        let same : r ≡ c = ground arith in
        (
          (λ _. same),
          subst (λ x. All (λ r. key r ≡ k → r ≡ x) rs) same
              (none_other k r rs (text_eq→≡ (key r) k hit) h.0),
        )
    | inr miss ↦ (
      (λ e'. absurd (ground (arith, text_eq_iff (key r) k))),
      HasKey-select_row k rs c h.1 (ground arith),
    )
  ]

  -- A key that selects no row is no row's key.
  pub select_row-none :
      (k : Text) (rs : List R)
      → select_row (λ r. text_eq (key r) k) rs ≡ none
      → All (λ r. key r ≢ k) rs
  unfolding select_row
  select_row-none k [] e = tt
  select_row-none k (r ∷ rs) e = elim (Bool-cases (text_eq (key r) k)) [
    | inl hit ↦ absurd (ground arith)
    | inr miss ↦
        ((λ e'. ground (arith, text_eq_iff (key r) k)), select_row-none k rs (ground arith))
  ]

  -- An update that keeps the key keeps the keys apart.
  pub HasKey-update_where :
      (p : R → Bool) (f : R → R) (rs : List R)
      → ((r : R) → key (f r) ≡ key r)
      → HasKey rs
      → HasKey (update_where p f rs)
  HasKey-update_where p f rs same h =
      Pairwise-update_where (λ _. Unit {0}) _ _ p f
        (λ a b _ _ apart. λ e. apart (sym (kept a) ∙ e ∙ kept b)) rs
        (All-of (λ _. Unit {0}) (λ _. tt) rs) h
    where
      kept : (r : R) → key (updated p f r) ≡ key r
      kept r = if-elim (λ x. key x ≡ key r) (p r) (f r) r (λ _. same r) (λ _. refl)
