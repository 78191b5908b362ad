-- ===== src/Wire/Batch/Total.antt =====
-- The batch parser answers every body: its rounds never run out.
use mathlib.Core.Option
use futo_notes_server.Ids.{valid_mutation_id, valid_uuid}
use futo_notes_server.Wire.Numbers.{split_uint32, split_uint16, split_bytes}
use futo_notes_server.Wire.Batch.{
  ◌>>=◌, ◌>>◌, BatchError, parsed, refused, Parsed, parse_entries, BatchEntry, parse_entry,
  or_refuse, refuse_if, invalid_operation, parse_batch, truncated_id_length, max_batch_entries,
  truncated_identifier, too_many_entries, invalid_identifier, invalid_create_id, invalid_update_id,
  truncated_version, create_version_not_zero, update_version_not_positive, truncated_blob_length,
  empty_blob, truncated_blob, refuse_empty,
}
use futo_notes_server.Prelude.{
  ◌≡◌, refl, [], ◌∷◌, zero, suc, true, false, none, some, ℕ, Text, length, Option, Bool, ◌≤◌, ◌≤◌,
  List, arith, Bool-cases, ◌<◌, ◌<◌, ltb, ap, inl, inr, drop, length-drop, if-elim, ◌+◌, ◌==◌, not,
  ◌&&◌,
}

-- What is left after a read is no longer than `n`.
abbrev Within {ℓ} : {A : Type ℓ} → ℕ → Parsed (A × Text) → Type 0
Within n (parsed (a, rest)) = length rest ≤ n
Within n _ = Unit

refuse_if-Within :
    (n : ℕ) (t : Bool) (x : BatchError) (k : Parsed (BatchEntry × Text))
    → Within n k
    → Within n (refuse_if t x >> k)
refuse_if-Within n true x k h = tt
refuse_if-Within n false x k h = h

or_refuse-Within :
    {A : Type 0} (n : ℕ) (o : Option A) (x : BatchError) (f : A → Parsed (BatchEntry × Text))
    → ((a : A) → o ≡ some a → Within n (f a))
    → Within n (or_refuse o x >>= f)
or_refuse-Within n none x f h = tt
or_refuse-Within n (some a) x f h = h a refl

split_uint16-shorter : (s r : Text) (n : ℕ) → split_uint16 s ≡ some (n, r) → length r ≤ length s
unfolding split_uint16
split_uint16-shorter (a ∷ b ∷ s) r n e =
    let tail : s ≡ r = ground arith in omega (arith, ap length tail)
split_uint16-shorter _ r n e = absurd (cc)

split_uint32-shorter : (s r : Text) (n : ℕ) → split_uint32 s ≡ some (n, r) → length r ≤ length s
unfolding split_uint32
split_uint32-shorter (a ∷ b ∷ c ∷ d ∷ s) r n e =
    let tail : s ≡ r = ground arith in omega (arith, ap length tail)
split_uint32-shorter _ r n e = absurd (cc)

split_bytes-shorter : (n : ℕ) (s x r : Text) → split_bytes n s ≡ some (x, r) → length r ≤ length s
unfolding split_bytes
split_bytes-shorter n s x r e = elim (Bool-cases (ltb (length s) n)) [
  | inl short ↦ absurd (ground arith)
  | inr long ↦
      let back : drop n s ≡ r = ground arith in omega (arith, ap length back, length-drop n s)
]

module _ (utf8_valid : Text → Bool) where
  parse_entry-Within : (op : ℕ) (s : Text) → Within (length s) (parse_entry utf8_valid op s)
  unfolding parse_entry
  parse_entry-Within op s = refuse_if-Within (length s) (ltb 1 op) invalid_operation _ (
      or_refuse-Within (length s) (split_uint16 s) truncated_id_length _ λ (n, s₁) e₁.
        or_refuse-Within (length s) (split_bytes n s₁) truncated_identifier _ λ (i, s₂) e₂.
          refuse_if-Within (length s) (not (utf8_valid i)) invalid_identifier _ (
            refuse_if-Within (length s) (op == 0 && not (valid_mutation_id i)) invalid_create_id _ (
              refuse_if-Within (length s) (op == 1 && not (valid_uuid i)) invalid_update_id _ (
                or_refuse-Within (length s) (split_uint32 s₂) truncated_version _ λ (v, s₃) e₃.
                  refuse_if-Within (length s) (op == 0 && not (v == 0)) create_version_not_zero _ (
                    refuse_if-Within (length s) (op == 1 && v == 0) update_version_not_positive _ (
                      or_refuse-Within (length s) (split_uint32 s₃) truncated_blob_length _
                        λ (m, s₄) e₄. refuse_if-Within (length s) (m == 0) empty_blob _ (
                          or_refuse-Within (length s) (split_bytes m s₄) truncated_blob _
                            λ (b, s₅) e₅.
                              let left : length s₅ ≤ length s = omega (
                                arith,
                                split_uint16-shorter s s₁ n e₁,
                                split_bytes-shorter n s₁ i s₂ e₂,
                                split_uint32-shorter s₂ s₃ v e₃,
                                split_uint32-shorter s₃ s₄ m e₄,
                                split_bytes-shorter m s₄ b s₅ e₅,
                              ) in
                              left)))))))

  abbrev Answered : Option (Parsed (List BatchEntry)) → Type 0
  Answered o = (r : Parsed (List BatchEntry)) × (o ≡ some r)

  cons_entry-Answered :
      (e : BatchEntry) (o : Option (Parsed (List BatchEntry)))
      → Answered o
      → Answered (elim o [
        | none ↦ none
        | some (refused x) ↦ some (refused x)
        | some (parsed entries) ↦ some (parsed (e ∷ entries))
      ])
  cons_entry-Answered e none (r, h) = absurd (cc)
  cons_entry-Answered e (some (refused x)) h = (refused x, refl)
  cons_entry-Answered e (some (parsed es)) h = (parsed (e ∷ es), refl)

  next-Answered :
      (fuel count n : ℕ) (m : Parsed (BatchEntry × Text))
      → Within n m
      → n < fuel
      → ((t : Text) → length t < fuel → Answered (parse_entries utf8_valid fuel count t))
      → Answered (elim m [
        | refused e ↦ some (refused e)
        | parsed (entry, rest) ↦ elim (parse_entries utf8_valid fuel count rest) [
          | none ↦ none
          | some (refused e) ↦ some (refused e)
          | some (parsed entries) ↦ some (parsed (entry ∷ entries))
        ]
      ])
  next-Answered fuel count n (refused e) w h k = (refused e, refl)
  next-Answered fuel count n (parsed (entry, rest)) w h k =
      cons_entry-Answered entry _ (k rest (omega (arith, w, h)))

  parse_entries-Answered :
      (fuel count : ℕ) (s : Text)
      → length s < fuel
      → Answered (parse_entries utf8_valid fuel count s)
  unfolding parse_entries
  parse_entries-Answered zero count s h = absurd (omega arith)
  parse_entries-Answered (suc fuel) count [] h = (parsed [], refl)
  parse_entries-Answered (suc fuel) count (op ∷ s) h =
      if-elim Answered (count == max_batch_entries) _ _ (λ _. (refused too_many_entries, refl))
        (λ _.
          next-Answered fuel (count + 1) (length s) (parse_entry utf8_valid op s)
            (parse_entry-Within op s) (omega (arith, h))
            (λ t k. parse_entries-Answered fuel (count + 1) t k))

  answer-Answered :
      (o : Option (Parsed (List BatchEntry)))
      → Answered o
      → Answered (Option.map (λ (r : Parsed (List BatchEntry)). r >>= refuse_empty utf8_valid) o)
  answer-Answered none (r, h) = absurd (cc)
  answer-Answered (some r) h = (r >>= refuse_empty utf8_valid, refl)

  -- Every body is answered: the batch parser either reads it or refuses it, and its rounds never
  -- run out, one more than the body has bytes being enough.
  pub parse_batch-Answered :
      (body : Text) → (r : Parsed (List BatchEntry)) × (parse_batch utf8_valid body ≡ some r)
  unfolding parse_batch
  parse_batch-Answered body =
      answer-Answered _ (parse_entries-Answered (length body + 1) 0 body (omega arith))
