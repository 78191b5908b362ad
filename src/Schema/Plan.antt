-- ===== src/Schema/Plan.antt =====
-- Which histories the server accepts.
use futo_notes_server.Prelude.{
  ◌≡◌, refl, [], ◌∷◌, true, false, none, List, Text, Option-cases, ◌++◌, All, subst, Bool-cases, ap,
  sym, inl, ◌∙◌, ◌∙◌, arith, inr, append-nil, append_assoc,
}
use futo_notes_server.Schema.{
  pending, plan_from, first_unknown, pending_migrations, Migration, is_among, migration_names,
  plan_known,
}

abbrev pub IsRecorded : List Text → Migration → Type 0
IsRecorded applied m = is_among applied m.name ≡ true

abbrev pub IsNew : List Text → Migration → Type 0
IsNew applied m = is_among applied m.name ≡ false

abbrev pub AllKnown : List Migration → List Text → Type 0
AllKnown ms applied = All (λ name. is_among (migration_names ms) name ≡ true) applied

first_unknown-none :
    (known names : List Text)
    → first_unknown known names ≡ none
    → All (λ name. is_among known name ≡ true) names
unfolding first_unknown
first_unknown-none known [] e = tt
first_unknown-none known (name ∷ names) e = elim (Bool-cases (is_among known name)) [
  | inl there ↦ (there, first_unknown-none known names (ground arith))
  | inr gone ↦ absurd (ground arith)
]

first_unknown-all :
    (known names : List Text)
    → All (λ name. is_among known name ≡ true) names
    → first_unknown known names ≡ none
unfolding first_unknown
first_unknown-all known [] h = refl
first_unknown-all known (name ∷ names) h = rw (h.0, first_unknown-all known names h.1) refl

pending-inj : (a b : List Migration) → pending a ≡ pending b → a ≡ b
pending-inj a b e = cc

-- With something skipped, the rest is new.
plan_from-skipped :
    (applied : List Text) (ms : List Migration) (p : Migration) (ps run : List Migration)
    → plan_from applied ms (p ∷ ps) ≡ pending run
    → (run ≡ p ∷ ps ++ ms) × All (IsNew applied) ms
unfolding plan_from
plan_from-skipped applied [] p ps run e = (sym (pending-inj _ _ e) ∙ sym (append-nil (p ∷ ps)), tt)
plan_from-skipped applied (m ∷ ms) p ps run e = elim (Bool-cases (is_among applied m.name)) [
  | inl there ↦ absurd (ground arith)
  | inr new ↦
      let (whole, news) = plan_from-skipped applied ms p (ps ++ m ∷ []) run (ground arith) in
      (whole ∙ append_assoc (p ∷ ps) (m ∷ []) ms, (new, news))
]

plan_from-run :
    (applied : List Text) (ms run : List Migration)
    → plan_from applied ms [] ≡ pending run
    → (done : List Migration) × (ms ≡ done ++ run)
      × All (IsRecorded applied) done
      × All (IsNew applied) run
unfolding plan_from
plan_from-run applied [] run e =
    ([], pending-inj _ _ e, tt, subst (All (IsNew applied)) (pending-inj _ _ e) tt)
plan_from-run applied (m ∷ ms) run e = elim (Bool-cases (is_among applied m.name)) [
  | inl there ↦
      let (done, whole, recorded, news) = plan_from-run applied ms run (ground arith) in
      (m ∷ done, ap (λ l. m ∷ l) whole, (there, recorded), news)
  | inr new ↦
      let (whole, news) = plan_from-skipped applied ms m [] run (ground arith) in
      ([], sym whole, tt, subst (All (IsNew applied)) (sym whole) (new, news))
]

plan_from-news :
    (applied : List Text) (ms : List Migration) (p : Migration) (ps : List Migration)
    → All (IsNew applied) ms
    → plan_from applied ms (p ∷ ps) ≡ pending (p ∷ ps ++ ms)
unfolding plan_from
plan_from-news applied [] p ps h = ap pending (sym (append-nil (p ∷ ps)))
plan_from-news applied (m ∷ ms) p ps h = rw h.0 (
    plan_from-news applied ms p (ps ++ m ∷ []) h.1 ∙ ap pending (append_assoc (p ∷ ps) (m ∷ []) ms))

plan_from-prefix :
    (applied : List Text) (done run : List Migration)
    → All (IsRecorded applied) done
    → All (IsNew applied) run
    → plan_from applied (done ++ run) [] ≡ pending run
unfolding plan_from
plan_from-prefix applied [] [] recorded new = refl
plan_from-prefix applied [] (m ∷ run) recorded new =
    rw new.0 (plan_from-news applied run m [] new.1)
plan_from-prefix applied (m ∷ done) run recorded new =
    rw recorded.0 (plan_from-prefix applied done run recorded.1 new)

-- The migrations are a recorded part and then the pending one, and nothing else is recorded.
abbrev pub SplitsAt : List Migration → List Text → List Migration → Type 0
SplitsAt ms applied run =
    (done : List Migration) × (ms ≡ done ++ run)
    × All (IsRecorded applied) done
    × All (IsNew applied) run
    × AllKnown ms applied

-- The server goes on with some pending migrations exactly when those that are recorded are all
-- shipped, and are the ones before them: a history of a newer server or one with a gap is refused.
pub pending_migrations_iff :
    (ms : List Migration) (applied : List Text) (run : List Migration)
    → (pending_migrations ms applied ≡ pending run → SplitsAt ms applied run)
      × (SplitsAt ms applied run → pending_migrations ms applied ≡ pending run)
unfolding pending_migrations
pending_migrations_iff ms applied run = (
  λ e. elim (Option-cases (first_unknown (migration_names ms) applied)) [
    | inl known ↦
        let (done, whole, recorded, news) = plan_from-run applied ms run (ground arith) in
        (done, whole, recorded, news, first_unknown-none (migration_names ms) applied known)
    | inr (name, there) ↦ absurd (ground arith)
  ],
  λ h.
      let (done, whole, recorded, news, known) = h in
      ap (plan_known ms applied) (first_unknown-all (migration_names ms) applied known)
      ∙ ap (λ l. plan_from applied l []) whole
      ∙ plan_from-prefix applied done run recorded news,
)
