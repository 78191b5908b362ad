-- ===== src/Wire/Numbers.antt =====
-- Big-endian numbers and counted byte strings (encoding/binary, slices of a body).
use futo_notes_server.Prelude.{
  ℕ, ◌+◌, ◌*◌, ◌/◌, ◌%◌, ◌<◌, ◌≡◌, [], ◌∷◌, ◌++◌, Text, Option, length, All, some, ap, none,
  if◌then◌else◌, ltb, take, arith, false, length-append, drop, take-length-append,
  drop-length-append, Bool-cases, suc, ap₂, zero, subst, inl, inr, ◌≤◌, ◌≤◌, sym, take-append-drop,
  ◌∙◌, ◌∙◌, length-take,
}

-- binary.BigEndian.AppendUint16(nil, uint16(n)), and the four bytes of uint32(n).
unfoldable pub be16 : ℕ → Text
be16 n = (n / 256 % 256) ∷ (n % 256) ∷ []

unfoldable pub be32 : ℕ → Text
be32 n = (n / 16777216 % 256) ∷ (n / 65536 % 256) ∷ (n / 256 % 256) ∷ (n % 256) ∷ []

-- The number at the front of what is left of a body, and what follows; `none` if it is cut off.
unfoldable pub split_uint16 : Text → Option (ℕ × Text)
split_uint16 (a ∷ b ∷ s) = some (a * 256 + b, s)
split_uint16 _ = none

unfoldable pub split_uint32 : Text → Option (ℕ × Text)
split_uint32 (a ∷ b ∷ c ∷ d ∷ s) = some (((a * 256 + b) * 256 + c) * 256 + d, s)
split_uint32 _ = none

unfoldable pub split_bytes : ℕ → Text → Option (Text × Text)
split_bytes n s = if ltb (length s) n then none else some (take n s, drop n s)

pub split_uint16-be16 : (n : ℕ) (s : Text) → n < 65536 → split_uint16 (be16 n ++ s) ≡ some (n, s)
unfolding split_uint16 be16
split_uint16-be16 n s h = ap (λ (m : ℕ). some (m, s)) (omega arith)

pub split_uint32-be32 :
    (n : ℕ) (s : Text) → n < 4294967296 → split_uint32 (be32 n ++ s) ≡ some (n, s)
unfolding split_uint32 be32
split_uint32-be32 n s h = ap (λ (m : ℕ). some (m, s)) (omega arith)

pub split_bytes-append : (x s : Text) → split_bytes (length x) (x ++ s) ≡ some (x, s)
unfolding split_bytes
split_bytes-append x s =
    let enough : ltb (length (x ++ s)) (length x) ≡ false = ground (arith, length-append x s) in
    rw (enough, take-length-append x s, drop-length-append x s)

abbrev pub IsBytes : Text → Type 0
IsBytes = All (λ c. c < 256)

All-drop : (n : ℕ) (s : Text) → IsBytes s → IsBytes (drop n s)
All-drop zero s h = h
All-drop (suc n) [] h = tt
All-drop (suc n) (c ∷ s) h = All-drop n s h.1

-- The other way round: what was split off, written again, is what was there.
pub be16-split_uint16 :
    (s r : Text) (n : ℕ)
    → IsBytes s
    → split_uint16 s ≡ some (n, r)
    → (s ≡ be16 n ++ r) × (n < 65536) × IsBytes r
unfolding split_uint16 be16
be16-split_uint16 (a ∷ b ∷ s) r n h e =
    let tail : s ≡ r = ground arith in
    let value : a * 256 + b ≡ n = ground arith in
    (ap₂ ◌∷◌ (omega arith) (ap₂ ◌∷◌ (omega arith) tail), omega arith, subst IsBytes tail h.1.1)
be16-split_uint16 _ r n h e = absurd (cc)

pub be32-split_uint32 :
    (s r : Text) (n : ℕ)
    → IsBytes s
    → split_uint32 s ≡ some (n, r)
    → (s ≡ be32 n ++ r) × (n < 4294967296) × IsBytes r
unfolding split_uint32 be32
be32-split_uint32 (a ∷ b ∷ c ∷ d ∷ s) r n h e =
    let tail : s ≡ r = ground arith in
    let value : ((a * 256 + b) * 256 + c) * 256 + d ≡ n = ground arith in
    (
      ap₂ ◌∷◌ (omega arith)
          (ap₂ ◌∷◌ (omega arith) (ap₂ ◌∷◌ (omega arith) (ap₂ ◌∷◌ (omega arith) tail))),
      omega arith,
      subst IsBytes tail h.1.1.1.1,
    )
be32-split_uint32 _ r n h e = absurd (cc)

pub append-split_bytes :
    (n : ℕ) (s x r : Text)
    → IsBytes s
    → split_bytes n s ≡ some (x, r)
    → (s ≡ x ++ r) × (length x ≡ n) × IsBytes r
unfolding split_bytes
append-split_bytes n s x r h e = elim (Bool-cases (ltb (length s) n)) [
  | inl short ↦ absurd (ground arith)
  | inr long ↦
      let front : take n s ≡ x = ground arith in
      let back : drop n s ≡ r = ground arith in
      let enough : n ≤ length s = ground arith in
      (
        sym (take-append-drop n s) ∙ ap₂ ◌++◌ front back,
        omega (arith, ap length front, length-take n s),
        subst IsBytes back (All-drop n s h),
      )
]
