-- ===== src/Objects/Pull/Order.antt =====
-- What ORDER BY change_seq gives where no two rows share a change_seq.
use futo_notes_server.Store.Sql.{select_where, All-select_where}
use futo_notes_server.Store.Keys.{Pairwise}
use futo_notes_server.Store.Rows.{ObjectRow}
use futo_notes_server.Objects.Pull.{order_by_seq, insert_ordered, not_after}
use futo_notes_server.Prelude.{
  ◌≡◌, refl, [], ◌∷◌, true, false, List, All, Bool, ◌≢◌, ◌<◌, if-elim, ◌≢◌, ◌<◌, arith, All-mono,
  ◌&&◌, Bool-cases, inl, ◌∙◌, ◌∙◌, sym, ap, inr,
}

abbrev pub IsAscending : List ObjectRow → Type 0
IsAscending = Pairwise (λ a b. a.change_seq < b.change_seq)

abbrev pub HasDistinctSeqs : List ObjectRow → Type 0
HasDistinctSeqs = Pairwise (λ a b. a.change_seq ≢ b.change_seq)

module _ {κ} (P : ObjectRow → Type κ) where
  All-insert_ordered :
      (o : ObjectRow) (rs : List ObjectRow) → P o → All P rs → All P (insert_ordered o rs)
  unfolding insert_ordered
  All-insert_ordered o [] h k = (h, tt)
  All-insert_ordered o (r ∷ rs) h k =
      if-elim (All P) (not_after o r) _ _ (λ _. (h, k)) (λ _. (k.0, All-insert_ordered o rs h k.1))

  pub All-order_by_seq : (rs : List ObjectRow) → All P rs → All P (order_by_seq rs)
  unfolding order_by_seq
  All-order_by_seq [] h = tt
  All-order_by_seq (r ∷ rs) h = All-insert_ordered r (order_by_seq rs) h.0 (All-order_by_seq rs h.1)

not_after→lt :
    (a b : ObjectRow)
    → not_after a b ≡ true
    → a.change_seq ≢ b.change_seq
    → a.change_seq < b.change_seq
unfolding not_after
not_after→lt a b h d = ground arith

after→lt :
    (a b : ObjectRow)
    → not_after a b ≡ false
    → a.change_seq ≢ b.change_seq
    → b.change_seq < a.change_seq
unfolding not_after
after→lt a b h d = ground arith

lt→not_after : (a b : ObjectRow) → a.change_seq < b.change_seq → not_after a b ≡ true
unfolding not_after
lt→not_after a b h = ground arith

insert_ordered-first :
    (o : ObjectRow) (rs : List ObjectRow)
    → All (λ r. o.change_seq < r.change_seq) rs
    → insert_ordered o rs ≡ o ∷ rs
unfolding insert_ordered
insert_ordered-first o [] h = refl
insert_ordered-first o (r ∷ rs) h = rw (lt→not_after o r h.0)

insert_ordered-IsAscending :
    (o : ObjectRow) (rs : List ObjectRow)
    → All (λ r. o.change_seq ≢ r.change_seq) rs
    → IsAscending rs
    → IsAscending (insert_ordered o rs)
unfolding insert_ordered
insert_ordered-IsAscending o [] d h = (tt, tt)
insert_ordered-IsAscending o (r ∷ rs) d h =
    if-elim IsAscending (not_after o r) _ _
      (λ e.
        let below : o.change_seq < r.change_seq = not_after→lt o r e d.0 in
        (
          (
            below,
            All-mono (λ (x : ObjectRow). r.change_seq < x.change_seq)
                (λ (x : ObjectRow). o.change_seq < x.change_seq) rs (λ x k. omega arith) h.0,
          ),
          h,
        ))
      (λ e.
        let above : r.change_seq < o.change_seq = after→lt o r e d.0 in
        (
          All-insert_ordered (λ (x : ObjectRow). r.change_seq < x.change_seq) o rs above h.0,
          insert_ordered-IsAscending o rs d.1 h.1,
        ))

pub order_by_seq-IsAscending :
    (rs : List ObjectRow) → HasDistinctSeqs rs → IsAscending (order_by_seq rs)
unfolding order_by_seq
order_by_seq-IsAscending [] h = tt
order_by_seq-IsAscending (r ∷ rs) h =
    insert_ordered-IsAscending r (order_by_seq rs) (All-order_by_seq _ rs h.0)
      (order_by_seq-IsAscending rs h.1)

-- A filter commutes with the order.
select-insert_hit :
    (p : ObjectRow → Bool) (o : ObjectRow) (rs : List ObjectRow)
    → p o ≡ true
    → IsAscending rs
    → All (λ r. o.change_seq ≢ r.change_seq) rs
    → select_where p (insert_ordered o rs) ≡ insert_ordered o (select_where p rs)
unfolding insert_ordered select_where
select-insert_hit p o [] hit h d = rw hit
select-insert_hit p o (r ∷ rs) hit h d = elim (Bool-cases (not_after o r)) [
  | inl e ↦
      let below : o.change_seq < r.change_seq = not_after→lt o r e d.0 in
      rw (e, hit)
        (sym (
          insert_ordered-first o (select_where p (r ∷ rs)) (
            All-select_where (λ (x : ObjectRow). o.change_seq < x.change_seq) p (r ∷ rs)
              (
                below,
                All-mono (λ (x : ObjectRow). r.change_seq < x.change_seq)
                    (λ (x : ObjectRow). o.change_seq < x.change_seq) rs (λ x k. omega arith) h.0,
              ))))
  | inr e ↦ let rest = select-insert_hit p o rs hit h.1 d.1 in ground (arith, rest, e)
]

select-insert_miss :
    (p : ObjectRow → Bool) (o : ObjectRow) (rs : List ObjectRow)
    → p o ≡ false
    → select_where p (insert_ordered o rs) ≡ select_where p rs
unfolding insert_ordered select_where
select-insert_miss p o [] miss = rw miss
select-insert_miss p o (r ∷ rs) miss = ground (arith, select-insert_miss p o rs miss)

pub select-order_by_seq :
    (p q both : ObjectRow → Bool) (rs : List ObjectRow)
    → ((r : ObjectRow) → both r ≡ (p r && q r))
    → HasDistinctSeqs (select_where p rs)
    → select_where q (order_by_seq (select_where p rs)) ≡ order_by_seq (select_where both rs)
unfolding select_where order_by_seq
select-order_by_seq p q both [] split d = refl
select-order_by_seq p q both (r ∷ rs) split d = elim (Bool-cases (p r)) [
  | inl pr ↦
      let d' : HasDistinctSeqs (r ∷ select_where p rs) = rw pr at d in
      let rest = select-order_by_seq p q both rs split d'.1 in
      elim (Bool-cases (q r)) [
        | inl qr ↦
            rw (split r, pr, qr)
              (select-insert_hit q r (order_by_seq (select_where p rs)) qr
                  (order_by_seq-IsAscending (select_where p rs) d'.1)
                  (All-order_by_seq (λ x. r.change_seq ≢ x.change_seq) (select_where p rs) d'.0)
                ∙ ap (insert_ordered r) rest)
        | inr qr ↦
            rw (split r, pr, qr)
              (select-insert_miss q r (order_by_seq (select_where p rs)) qr ∙ rest)
      ]
  | inr pr ↦
      let d' : HasDistinctSeqs (select_where p rs) = rw pr at d in
      rw (split r, pr) (select-order_by_seq p q both rs split d')
]
