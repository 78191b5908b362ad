-- ===== src/Objects/Pull/Paging.antt =====
-- A client that pulls page by page sees every change once (cmd/server/objects.go, handleListObjects).
use futo_notes_server.Objects.Pull.Order.{
  IsAscending, HasDistinctSeqs, All-order_by_seq, order_by_seq-IsAscending, select-order_by_seq,
}
use futo_notes_server.Store.Keys.{Pairwise, Pairwise-mono, Pairwise-take, Pairwise-select_where}
use futo_notes_server.Store.Rows.{ObjectRow}
use futo_notes_server.Store.Monad.{Db}
use futo_notes_server.Store.Sql.{select_where, select_where-test}
use futo_notes_server.Objects.Pull.{
  next_cursor, all_changes, changed_since, list_rows, pull, pull_page,
}
use futo_notes_server.Objects.Sequence.{DistinctSeq}
use native.Mathlib.Numerals.{add-one}
use futo_notes_server.Prelude.{
  ◌≡◌, refl, [], ◌∷◌, true, false, zero, suc, Text, ℕ, List, All, ◌<◌, ◌<◌, ◌≤◌, ◌≤◌, ltb, take,
  arith, drop, lt→ltb, length, ◌+◌, All-mono, All-take, text_eq_iff, length-take, ap, ◌∙◌, ◌∙◌,
  length-drop, some, sym, if◌then◌else◌, Bool-cases, inl, ltb→lt, inr, take-append-drop, Bool,
  Option, ◌++◌,
}

changed_since-past :
    (user_id collection_id : Text) (since : ℕ) (r : ObjectRow)
    → changed_since user_id collection_id since r ≡ true
    → since < r.change_seq
unfolding changed_since
changed_since-past user_id collection_id since r h = ground arith

changed_since-here :
    (user_id collection_id : Text) (since : ℕ) (r : ObjectRow)
    → changed_since user_id collection_id since r ≡ true
    → r.collection_id ≡ collection_id
unfolding changed_since
changed_since-here user_id collection_id since r h =
    ground (arith, text_eq_iff r.collection_id collection_id)

-- Every row of the answer is past the cursor, and of the collection.
all_changes-past :
    (user_id collection_id : Text) (since : ℕ) (d : Db)
    → All (λ r. since < r.change_seq) (all_changes user_id collection_id since d)
unfolding all_changes
all_changes-past user_id collection_id since d =
    All-order_by_seq (λ r. since < r.change_seq) _
      (All-mono (λ r. changed_since user_id collection_id since r ≡ true)
        (λ r. since < r.change_seq) _ (changed_since-past user_id collection_id since)
        (select_where-test (changed_since user_id collection_id since) d.objects))

-- Within one collection, distinct means distinct.
selected-HasDistinctSeqs :
    (user_id collection_id : Text) (since : ℕ) (rs : List ObjectRow)
    → Pairwise DistinctSeq rs
    → HasDistinctSeqs (select_where (changed_since user_id collection_id since) rs)
selected-HasDistinctSeqs user_id collection_id since rs h =
    Pairwise-mono (λ r. r.collection_id ≡ collection_id) DistinctSeq _
      (λ a b here here' d. d (here ∙ sym here'))
      (select_where (changed_since user_id collection_id since) rs)
      (All-mono (λ r. changed_since user_id collection_id since r ≡ true)
        (λ r. r.collection_id ≡ collection_id) _ (changed_since-here user_id collection_id since)
        (select_where-test (changed_since user_id collection_id since) rs))
      (Pairwise-select_where DistinctSeq (changed_since user_id collection_id since) rs h)

next_cursor-le :
    (since : ℕ) (rs : List ObjectRow)
    → All (λ r. since < r.change_seq) rs
    → IsAscending rs
    → since ≤ next_cursor since rs
unfolding next_cursor
next_cursor-le since [] h k = omega arith
next_cursor-le since (r ∷ rs) h k = omega (arith, h.0, next_cursor-le r.change_seq rs k.0 k.1)

-- What is past the last row of a page is what the page leaves.
past_page :
    (k since : ℕ) (rs : List ObjectRow)
    → All (λ r. since < r.change_seq) rs
    → IsAscending rs
    → select_where (λ r. ltb (next_cursor since (take k rs)) r.change_seq) rs ≡ drop k rs
unfolding next_cursor select_where
past_page zero since [] h a = refl
past_page zero since (r ∷ rs) h a =
    rw (lt→ltb since r.change_seq h.0, past_page zero since rs h.1 a.1)
past_page (suc k) since [] h a = refl
past_page (suc k) since (r ∷ rs) h a =
    let le =
      next_cursor-le r.change_seq (take k rs) (All-take _ k rs a.0) (Pairwise-take _ k rs a.1) in
    let rest = past_page k r.change_seq rs a.0 a.1 in ground (arith, le, rest)

-- The next page starts where the last one ended.
pub all_changes-next :
    (user_id collection_id : Text) (since k : ℕ) (d : Db)
    → Pairwise DistinctSeq d.objects
    → all_changes user_id collection_id
        (next_cursor since (take k (all_changes user_id collection_id since d)))
        d
      ≡ drop k (all_changes user_id collection_id since d)
unfolding all_changes
all_changes-next user_id collection_id since k d apart =
    let distinct = selected-HasDistinctSeqs user_id collection_id since d.objects apart in
    let ascending = order_by_seq-IsAscending _ distinct in
    let past = all_changes-past user_id collection_id since d in
    let page = take k (all_changes user_id collection_id since d) in
    let le = next_cursor-le since page (All-take _ k _ past) (Pairwise-take _ k _ ascending) in
    sym (
      select-order_by_seq (changed_since user_id collection_id since)
        (λ r. ltb (next_cursor since page) r.change_seq)
        (changed_since user_id collection_id (next_cursor since page)) d.objects
        (λ r. unfold changed_since in ground (arith, le)) distinct)
    ∙ past_page k since _ past ascending

page_has_more :
    (limit : ℕ) (rs : List ObjectRow)
    → ltb limit (length (take (limit + 1) rs)) ≡ ltb limit (length rs)
page_has_more limit rs = ground (arith, length-take (limit + 1) rs)

take-take-suc : (n : ℕ) (rs : List ObjectRow) → take n (take (n + 1) rs) ≡ take n rs
take-take-suc n rs = rw add-one (go n rs)
  where
    go : (n : ℕ) (rs : List ObjectRow) → take n (take (suc n) rs) ≡ take n rs
    go zero rs = refl
    go (suc n) [] = refl
    go (suc n) (r ∷ rs) = ap (λ (l : List ObjectRow). r ∷ l) (go n rs)

take-all : (n : ℕ) (rs : List ObjectRow) → length rs ≤ n → take n rs ≡ rs
take-all zero [] h = refl
take-all zero (r ∷ rs) h = absurd (omega arith)
take-all (suc n) [] h = refl
take-all (suc n) (r ∷ rs) h = ap (λ (l : List ObjectRow). r ∷ l) (take-all n rs (omega arith))

page_of :
    (limit : ℕ) (rs : List ObjectRow)
    → ◌≡◌ {A = List ObjectRow × Bool}
        (if ltb limit (length (take (limit + 1) rs))
          then (take limit (take (limit + 1) rs), true)
          else (take (limit + 1) rs, false))
        (take limit rs, ltb limit (length rs))
page_of limit rs = elim (Bool-cases (ltb limit (length rs))) [
  | inl e ↦ rw (page_has_more limit rs, e, take-take-suc limit rs)
  | inr e ↦
      let short : length rs ≤ limit = ground arith in
      rw (page_has_more limit rs, e, take-all limit rs short, take-all (limit + 1) rs (omega arith))
]

-- A page holds the first rows of what changed, and says whether there are more.
pub list_rows-page :
    (user_id collection_id : Text) (since limit : ℕ) (d : Db)
    → list_rows user_id collection_id since (some limit) d ≡ (
      take limit (all_changes user_id collection_id since d),
      ltb limit (length (all_changes user_id collection_id since d)),
    )
unfolding list_rows
list_rows-page user_id collection_id since limit d =
    page_of limit (all_changes user_id collection_id since d)

pull_page-more :
    (rows more : List ObjectRow) (k : ℕ → Option (List ObjectRow)) (since : ℕ)
    → k (next_cursor since rows) ≡ some more
    → pull_page (rows, true) k since ≡ some (rows ++ more)
unfolding pull_page
pull_page-more rows more k since e = rw e

pull_page-last :
    (rows : List ObjectRow) (k : ℕ → Option (List ObjectRow)) (since : ℕ)
    → pull_page (rows, false) k since ≡ some rows
unfolding pull_page
pull_page-last rows k since = refl

-- Pages of any positive size, each asked for with the cursor of the one before, put together are
-- all that changed since the first cursor, in order, nothing twice and nothing left out: given
-- that no two objects of a collection share a change_seq, and a round for each change.
pub pull-all_changes :
    (fuel : ℕ) (user_id collection_id : Text) (limit since : ℕ) (d : Db)
    → 0 < limit
    → Pairwise DistinctSeq d.objects
    → length (all_changes user_id collection_id since d) < fuel
    → pull fuel user_id collection_id limit since d
      ≡ some (all_changes user_id collection_id since d)
unfolding pull
pull-all_changes zero user_id collection_id limit since d pos apart enough = absurd (omega arith)
pull-all_changes (suc fuel) user_id collection_id limit since d pos apart enough =
    let all = all_changes user_id collection_id since d in
    elim (Bool-cases (ltb limit (length all))) [
      | inl e ↦
          let next = all_changes-next user_id collection_id since limit d apart in
          let rest =
            pull-all_changes fuel user_id collection_id limit (next_cursor since (take limit all)) d
              pos apart
              (rw next (omega (arith, ltb→lt limit (length all) e, length-drop limit all))) in
          rw (list_rows-page user_id collection_id since limit d, e)
            (pull_page-more (take limit all) (drop limit all) _ since (rest ∙ ap some next)
              ∙ ap some (take-append-drop limit all))
      | inr e ↦
          let short : length all ≤ limit = ground arith in
          rw (list_rows-page user_id collection_id since limit d, e)
            (pull_page-last (take limit all) _ since ∙ ap some (take-all limit all short))
    ]
