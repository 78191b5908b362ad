-- ===== src/System/Converted.antt =====
-- Every sequence of the transactions that write collections or objects, and the check of versions in
-- the conversion to SQLite.
use futo_notes_server.Objects.Steps.{is_row}
use futo_notes_server.Collections.Key.Rotation.{put_key-effect}
use futo_notes_server.Collections.Key.{KeyInput, set_key, put_key, collection_has_id}
use futo_notes_server.Objects.Create.Effect.{created_row}
use futo_notes_server.Collections.Vault.Claim.{claim_collection-ClaimsNew}
use futo_notes_server.Collections.Vault.Deletion.{delete_collection-Deleted, delete_where-gone}
use futo_notes_server.Objects.Delete.Atomic.{delete_prepared-effect}
use futo_notes_server.Objects.Delete.{delete_prepared}
use futo_notes_server.Objects.Update.{update_prepared}
use futo_notes_server.Objects.Update.Atomic.{update_prepared-effect}
use futo_notes_server.System.Versions.{
  create_reserved-IsReached, update_prepared-IsReached, delete_prepared-IsReached,
}
use futo_notes_server.Objects.Create.{create_reserved}
use futo_notes_server.Collections.Vault.{in_collection, delete_collection, claim_collection}
use futo_notes_server.Store.Keys.{
  HasKey, select_row-none, HasKey-update_where, Pairwise-delete_where,
}
use futo_notes_server.Store.Sql.{delete_where, select_row, All-delete_where, update_where}
use futo_notes_server.Objects.Create.Atomic.{create_reserved-effect}
use futo_notes_server.Store.Rows.{ObjectRow, CollectionRow, KeyMaterial}
use futo_notes_server.Store.Monad.{World, Db}
use futo_notes_server.Schema.Convert.{
  max_seq, collection_versions, IsReached, versions_of, collection_versions-IsReached,
}
use futo_notes_server.Prelude.{
  ◌≡◌, refl, [], ◌∷◌, false, none, some, List, Text, subst, sym, Bool, All, text_eq, inl, All-mono,
  inr, ℕ, Bool-cases, ◌≢◌, ◌≢◌, text_eq→≡, arith, Option, text_eq_iff, subst₂, ◌∙◌, ◌∙◌, All-and,
  ap, ◌+◌, ◌+◌, if-elim,
}

-- What any other transaction does: the objects stay, and the versions of the collections.
pub record SameVersions (w w' : World) : Type 0 where
  pub objects : w'.stored.objects ≡ w.stored.objects
  pub versions : versions_of w'.stored.collections ≡ versions_of w.stored.collections

-- One transaction, whichever of its statements fails.
pub data Write (w : World) : World → Type 0 where
  creates :
      (user_id collection_id mutation_id blob_key : Text) (prepared : Bool)
      → Write w (create_reserved user_id collection_id mutation_id blob_key prepared w).1
  updates :
      (user_id collection_id object_id mutation_id blob_key : Text) (version : ℕ) (prepared : Bool)
      → Write w
          (update_prepared user_id collection_id object_id mutation_id blob_key version prepared
            w).1
  deletes :
      (user_id collection_id object_id mutation_id : Text) (expected : Option ℕ) (prepared : Bool)
      → Write w (delete_prepared user_id collection_id object_id mutation_id expected prepared w).1
  deletes_collection : (user_id id : Text) → Write w (delete_collection user_id id w).1
  claims :
      (user_id : Text)
      → ((n : ℕ) → All (λ o. in_collection (w.env.uuid n) o ≡ false) w.stored.objects)
      → Write w (claim_collection user_id w).1
  elsewhere : (w' : World) → SameVersions w w' → Write w w'

versions_of-update_where :
    (p : CollectionRow → Bool) (f : CollectionRow → CollectionRow) (cs : List CollectionRow)
    → ((c : CollectionRow) → ((f c).id ≡ c.id) × ((f c).current_version ≡ c.current_version))
    → versions_of (update_where p f cs) ≡ versions_of cs
unfolding update_where
versions_of-update_where p f [] keep = refl
versions_of-update_where p f (c ∷ cs) keep =
    let rest = versions_of-update_where p f cs keep in
    if-elim
      (λ x.
        (x.id, x.current_version) ∷ versions_of (update_where p f cs)
        ≡ (c.id, c.current_version) ∷ versions_of cs)
      (p c) (f c) c (λ _. rw ((keep c).0, (keep c).1, rest) refl) (λ _. rw rest refl)

set_key-versions :
    (id : Text) (k k' : KeyMaterial) (d d' : Db)
    → set_key id k d ≡ some (k', d')
    → (d'.objects ≡ d.objects) × (versions_of d'.collections ≡ versions_of d.collections)
unfolding set_key
set_key-versions id k k' d d' e =
    elim (Bool-cases (is_row (select_row (collection_has_id id) d.collections))) [
      | inl there ↦
          let same : d' ≡ record d {
            collections =
                update_where (collection_has_id id) (λ c. record c { key = some k }) d.collections;
          } =
            ground arith in
          (
            ap (λ x. x.objects) same,
            ap (λ x. versions_of x.collections) same
                ∙ versions_of-update_where (collection_has_id id) (λ c. record c { key = some k })
                    d.collections (λ c. (refl, refl)),
          )
      | inr gone ↦ absurd (ground arith)
    ]

-- Storing a key is a transaction elsewhere.
pub put_key-SameVersions :
    (revision_token : ℕ → Text) (user_id id : Text) (input : KeyInput) (token : Option Text)
    (w : World)
    → SameVersions w (put_key revision_token user_id id input token w).1
put_key-SameVersions revision_token user_id id input token w =
    elim (put_key-effect revision_token user_id id input token w) [
      | inl same ↦ record {
        objects = ap (λ d. d.objects) same;
        versions = ap (λ d. versions_of d.collections) same;
      }
      | inr (c, k, _, _, stored, _) ↦
          let (o, v) = set_key-versions id k k w.stored _ stored in
          record { objects = o; versions = v }
    ]

pub data Written : World → Type 0 where
  empty : (w : World) → w.stored.objects ≡ [] → w.stored.collections ≡ [] → Written w
  next : {v w : World} → Written v → Write v w → Written w

abbrev Keyed : List ObjectRow → Type 0
Keyed os = HasKey (λ (o : ObjectRow). o.id) os

abbrev AtTop : World → Type 0
AtTop w = Keyed w.stored.objects × IsReached w.stored.collections w.stored.objects

IsReached-versions :
    (cs : List CollectionRow) (os : List ObjectRow)
    → IsReached cs os
    → All (λ v. max_seq v.0 os ≡ v.1) (versions_of cs)
IsReached-versions [] os h = tt
IsReached-versions (c ∷ cs) os h = (h.0, IsReached-versions cs os h.1)

versions-IsReached :
    (cs : List CollectionRow) (os : List ObjectRow)
    → All (λ v. max_seq v.0 os ≡ v.1) (versions_of cs)
    → IsReached cs os
versions-IsReached [] os h = tt
versions-IsReached (c ∷ cs) os h = (h.0, versions-IsReached cs os h.1)

-- Without the objects of one collection, the others' highest stays.
max_seq-delete_where :
    (id k : Text) (os : List ObjectRow)
    → text_eq k id ≡ false
    → max_seq k (delete_where (in_collection id) os) ≡ max_seq k os
unfolding max_seq delete_where
max_seq-delete_where id k [] e = refl
max_seq-delete_where id k (o ∷ os) e = elim (Bool-cases (in_collection id o)) [
  | inr stays ↦ rw (stays, max_seq-delete_where id k os e) refl
  | inl goes ↦
      let other : in_collection k o ≡ false =
        subst (λ x. text_eq x k ≡ false) (sym (text_eq→≡ o.collection_id id goes))
          (ground (arith, text_eq_iff k id, text_eq_iff id k)) in
      rw (goes, other) (max_seq-delete_where id k os e)
]

max_seq-nowhere :
    (id : Text) (os : List ObjectRow) → All (λ o. in_collection id o ≡ false) os → max_seq id os ≡ 0
unfolding max_seq
max_seq-nowhere id [] h = refl
max_seq-nowhere id (o ∷ os) h = rw h.0 (max_seq-nowhere id os h.1)

Keyed-cons :
    (o : ObjectRow) (os : List ObjectRow)
    → select_row (λ (r : ObjectRow). text_eq r.id o.id) os ≡ none
    → Keyed os
    → Keyed (o ∷ os)
Keyed-cons o os unused keys = (
  All-mono (λ (r : ObjectRow). r.id ≢ o.id) (λ r. o.id ≢ r.id) os (λ r n e. n (sym e))
      (select_row-none (λ (r : ObjectRow). r.id) o.id os unused),
  keys,
)

Write-AtTop : {v w : World} → Write v w → AtTop v → AtTop w
Write-AtTop {v} (creates u c m k p) h = (
  elim (create_reserved-effect u c m k p v) [
    | inl (_, a) ↦ subst Keyed a.same_data.objects h.0
    | inr (o, _, x) ↦ subst Keyed (sym x.objects) (
        Keyed-cons
          (created_row u c m k x.object_id (x.counter.current_version + 1) x.blob.size_bytes
            x.created_at)
          v.stored.objects x.unused h.0)
  ],
  create_reserved-IsReached u c m p v k h.1,
)
Write-AtTop {v} (updates u c o m k n p) h = (
  elim (update_prepared-effect u c o m k n p v) [
    | inl (_, a) ↦ subst Keyed a.same_data.objects h.0
    | inr (_, _, x) ↦ subst Keyed (sym x.objects) (
        HasKey-update_where (λ (r : ObjectRow). r.id) (λ r. text_eq r.id o) _ v.stored.objects
          (λ r. refl) h.0)
  ],
  update_prepared-IsReached u c m p v o k n h.0 h.1,
)
Write-AtTop {v} (deletes u c o m e p) h = (
  elim (delete_prepared-effect u c o m e p v) [
    | inl (_, a) ↦ subst Keyed a.same_data.objects h.0
    | inr (_, _, x) ↦ subst Keyed (sym x.objects) (
        HasKey-update_where (λ (r : ObjectRow). r.id) (λ r. text_eq r.id o) _ v.stored.objects
          (λ r. refl) h.0)
  ],
  delete_prepared-IsReached u c m p v o e h.0 h.1,
)
Write-AtTop {v} (deletes_collection u id) h = elim (delete_collection-Deleted u id v) [
  | inl (same, _) ↦ subst (λ d. Keyed d.objects × IsReached d.collections d.objects) (sym same) h
  | inr (_, _, _, g) ↦ (
    subst Keyed (sym g.other_objects)
        (Pairwise-delete_where _ (in_collection id) v.stored.objects h.0),
    subst₂ IsReached (sym g.other_collections) (sym g.other_objects) (
        All-mono
          (λ (c : CollectionRow).
            (text_eq c.id id ≡ false) × (max_seq c.id v.stored.objects ≡ c.current_version))
          (λ (c : CollectionRow).
            max_seq c.id (delete_where (in_collection id) v.stored.objects) ≡ c.current_version)
          _ (λ c q. max_seq-delete_where id c.id v.stored.objects q.0 ∙ q.1)
          (All-and _ _ _
            (delete_where-gone (λ (c : CollectionRow). text_eq c.id id) v.stored.collections)
            (All-delete_where _ (λ (c : CollectionRow). text_eq c.id id) v.stored.collections
              h.1))),
  )
]
Write-AtTop {v} (claims u fresh) h = elim (claim_collection-ClaimsNew u v) [
  | inl same ↦ subst (λ d. Keyed d.objects × IsReached d.collections d.objects) (sym same) h
  | inr (c, n, minted, _, start, _, grown) ↦
      subst (λ d. Keyed d.objects × IsReached d.collections d.objects) (sym grown)
        (
          h.0,
          (
            ap (λ x. max_seq x v.stored.objects) minted
                ∙ max_seq-nowhere (v.env.uuid n) v.stored.objects (fresh n)
                ∙ sym start,
            h.1,
          ),
        )
]
Write-AtTop {v} (elsewhere w' same) h = (
  subst Keyed (sym same.objects) h.0,
  versions-IsReached w'.stored.collections w'.stored.objects (
      subst₂ (λ vs os. All (λ x. max_seq x.0 os ≡ x.1) vs) (sym same.versions) (sym same.objects)
        (IsReached-versions v.stored.collections v.stored.objects h.1)),
)

Written-AtTop : {w : World} → Written w → AtTop w
Written-AtTop (empty w no_objects no_collections) = (
  subst Keyed (sym no_objects) tt,
  subst (λ cs. IsReached cs w.stored.objects) (sym no_collections) tt,
)
Written-AtTop (next r s) = Write-AtTop s (Written-AtTop r)

-- In every state that any sequence of these transactions leads to from an empty database, if a
-- minted identifier is not that of a collection with objects, the version of each collection is the
-- highest change_seq of its objects, so that the conversion to SQLite finds all versions in order.
pub Written-collection_versions :
    (w : World)
    → Written w
    → collection_versions w.stored.collections w.stored.objects
      ≡ some (versions_of w.stored.collections)
Written-collection_versions w r =
    collection_versions-IsReached w.stored.collections w.stored.objects (Written-AtTop r).1
