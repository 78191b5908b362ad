-- ===== src/Auth/Password/Verified.antt =====
-- Which passwords a stored hash accepts.
use futo_notes_server.Auth.Password.{split_on, push_first, verify_hash, verify_parts, verify_scrypt}
use futo_notes_server.Prelude.{
  ◌≡◌, ◌≢◌, refl, [], ◌∷◌, true, false, some, ℕ, Text, List, Option, Option-cases, Bool-cases, inl,
  inr, ◌++◌, ◌==◌, ==_iff, arith, codes, text_eq, text_eq→≡, ap, ◌∙◌, sym, if-elim,
}

-- strings.Join.
joined : ℕ → List Text → Text
joined c [] = []
joined c (s ∷ []) = s
joined c (s ∷ t ∷ ss) = s ++ c ∷ joined c (t ∷ ss)

joined-push_first :
    (c d : ℕ) (ss : List Text) → ss ≢ [] → joined c (push_first d ss) ≡ d ∷ joined c ss
unfolding joined
joined-push_first c d [] h = absurd (h refl)
joined-push_first c d (s ∷ []) h = refl
joined-push_first c d (s ∷ t ∷ ss) h = refl

joined-cons : (c : ℕ) (ss : List Text) → ss ≢ [] → joined c ([] ∷ ss) ≡ c ∷ joined c ss
unfolding joined
joined-cons c [] h = absurd (h refl)
joined-cons c (s ∷ ss) h = refl

push_first-ne-nil : (x : ℕ) (ss : List Text) → push_first x ss ≢ []
push_first-ne-nil x [] h = cc
push_first-ne-nil x (t ∷ ss) h = cc

split_on-ne-nil : (c : ℕ) (s : Text) → split_on c s ≢ []
unfolding split_on
split_on-ne-nil c [] = λ h. cc
split_on-ne-nil c (x ∷ s) =
    if-elim (λ ss. ss ≢ []) (x == c) ([] ∷ split_on c s) (push_first x (split_on c s)) (λ _ h. cc)
      (λ _. push_first-ne-nil x (split_on c s))

split_on-cut : (c x : ℕ) (s : Text) → (x == c) ≡ true → split_on c (x ∷ s) ≡ [] ∷ split_on c s
unfolding split_on
split_on-cut c x s e = rw e refl

split_on-push :
    (c x : ℕ) (s : Text) → (x == c) ≡ false → split_on c (x ∷ s) ≡ push_first x (split_on c s)
unfolding split_on
split_on-push c x s e = rw e refl

-- Joining the parts again gives the text.
joined-split_on : (c : ℕ) (s : Text) → joined c (split_on c s) ≡ s
joined-split_on c [] = unfold split_on joined in refl
joined-split_on c (x ∷ s) = elim (Bool-cases (x == c)) [
  | inl e ↦
      ap (joined c) (split_on-cut c x s e)
      ∙ joined-cons c (split_on c s) (split_on-ne-nil c s)
      ∙ ap (λ l. c ∷ l) (joined-split_on c s)
      ∙ ap (λ d. d ∷ s) (sym ((==_iff x c).0 e))
  | inr e ↦
      ap (joined c) (split_on-push c x s e)
      ∙ joined-push_first c x (split_on c s) (split_on-ne-nil c s)
      ∙ ap (λ l. x ∷ l) (joined-split_on c s)
]

module _ (hex_decode : Text → Option Text) (scrypt_key : Text → Text → Option Text) where
  verify_hash-inv :
      (password salt_hex hash_hex : Text)
      → verify_hash hex_decode scrypt_key password salt_hex hash_hex ≡ some true
      → (salt : Text) × (key : Text) × (hex_decode salt_hex ≡ some salt)
        × (hex_decode hash_hex ≡ some key)
        × (scrypt_key password salt ≡ some key)
  unfolding verify_hash
  verify_hash-inv password salt_hex hash_hex e = elim (Option-cases (hex_decode salt_hex)) [
    | inl gone ↦ absurd (ground arith)
    | inr (salt, salted) ↦ elim (Option-cases (hex_decode hash_hex)) [
      | inl gone ↦ absurd (ground arith)
      | inr (want, wanted) ↦ elim (Option-cases (scrypt_key password salt)) [
        | inl gone ↦ absurd (ground arith)
        | inr (derived, made) ↦
            let same : derived ≡ want = text_eq→≡ derived want (ground arith) in
            (salt, want, salted, wanted, made ∙ ap some same)
      ]
    ]
  ]

  -- A stored hash accepts a password when it has the form "scrypt:<costs>:<salt>:<key>" and its key
  -- is the one that scrypt derives from the password and the salt.
  abbrev pub Accepts : Text → Text → Type 0
  Accepts password stored =
      (costs : Text) × (salt_hex : Text) × (key_hex : Text) × (salt : Text) × (key : Text) × (stored
        ≡ codes "scrypt" ++ b':' ∷ (costs ++ b':' ∷ (salt_hex ++ b':' ∷ key_hex)))
      × (hex_decode salt_hex ≡ some salt)
      × (hex_decode key_hex ≡ some key)
      × (scrypt_key password salt ≡ some key)

  verify_parts-Accepts :
      (password stored : Text) (parts : List Text)
      → joined b':' parts ≡ stored
      → verify_parts hex_decode scrypt_key password parts ≡ some true
      → Accepts password stored
  unfolding verify_parts
  verify_parts-Accepts password stored [] form e = absurd (ground arith)
  verify_parts-Accepts password stored (a ∷ []) form e = absurd (ground arith)
  verify_parts-Accepts password stored (a ∷ b ∷ []) form e = absurd (ground arith)
  verify_parts-Accepts password stored (a ∷ b ∷ c ∷ []) form e = absurd (ground arith)
  verify_parts-Accepts password stored (a ∷ b ∷ c ∷ d ∷ []) form e =
      elim (Bool-cases (text_eq a (codes "scrypt"))) [
        | inr other ↦ absurd (ground arith)
        | inl scheme ↦
            let (salt, key, salted, keyed, derived) = verify_hash-inv password c d (ground arith) in
            let named : a ≡ codes "scrypt" = text_eq→≡ _ _ scheme in
            let whole : stored ≡ a ++ b':' ∷ (b ++ b':' ∷ (c ++ b':' ∷ d)) =
              sym form ∙ unfold joined in refl in
            (
              b,
              c,
              d,
              salt,
              key,
              whole ∙ ap (λ t. t ++ b':' ∷ (b ++ b':' ∷ (c ++ b':' ∷ d))) named,
              salted,
              keyed,
              derived,
            )
      ]
  verify_parts-Accepts password stored (a ∷ b ∷ c ∷ d ∷ x ∷ rest) form e = absurd (ground arith)

  pub verify_scrypt-Accepts :
      (password stored : Text)
      → verify_scrypt hex_decode scrypt_key password stored ≡ some true
      → Accepts password stored
  unfolding verify_scrypt
  verify_scrypt-Accepts password stored e =
      verify_parts-Accepts password stored (split_on b':' stored) (joined-split_on b':' stored) e
