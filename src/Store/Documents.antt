-- ===== src/Store/Documents.antt =====
-- The JSON documents of internal/objects/objects.go: the responses, and the outcomes that
-- mutation_results keeps. A document is the Go value that encoding/json wrote, and decoding it
-- into another struct reads the fields that the two share and leaves the rest zero.
use futo_notes_server.Prelude.{ℕ, Bool, true, false, Option, none, some, Text, []}
use futo_notes_server.Store.Rows.{ObjectRow}

-- The counters are int64; encoding/json carries them as decimal text, which reads back as written.
pub record Object : Type 0 where
  pub id : Text
  pub collection_id : Text
  pub version : ℕ
  pub change_seq : ℕ
  pub deleted : Bool
  pub blob_key : Option Text
  pub size_bytes : Option ℕ
  pub created_at : ℕ
  pub updated_at : ℕ

pub record DeletedObject : Type 0 where
  pub id : Text
  pub version : ℕ
  pub change_seq : ℕ
  pub deleted : Bool

pub record MutationResponse : Type 0 where
  pub object : Object
  pub collection_version : ℕ
  pub replayed : Option Bool

pub record DeleteResponse : Type 0 where
  pub object : DeletedObject
  pub collection_version : ℕ

pub record Conflict : Type 0 where
  pub error : Text
  pub current_version : ℕ
  pub current_blob_key : Option Text

-- `unrelated` is an object without the fields that are read, `not_object` is any other value.
pub data Body : Type 0 where
  message : Text → Body
  mutation : MutationResponse → Body
  deletion : DeleteResponse → Body
  conflict : Conflict → Body
  unrelated : Body
  not_object : Body

-- The column `result`: {"status", "body"}, the older {"status": "pending"}, the older unwrapped
-- bodies, and what does not parse.
pub data Document : Type 0 where
  wrapped : ℕ → Body → Document
  pending_text : Document
  bare : Body → Document
  unreadable : Document

pub data Kind : Type 0 where
  create update delete : Kind

abbrev pub kind_eq : Kind → Kind → Bool
kind_eq create create = true
kind_eq update update = true
kind_eq delete delete = true
kind_eq _ _ = false

unfoldable pub scan_object : ObjectRow → Object
scan_object r = record {
  id = r.id;
  collection_id = r.collection_id;
  version = r.version;
  change_seq = r.change_seq;
  deleted = r.deleted;
  blob_key = r.blob_key;
  size_bytes = r.size_bytes;
  created_at = r.created_at;
  updated_at = r.updated_at;
}

-- Go's zero values.
abbrev pub zero_object : Object
zero_object = record {
  id = [];
  collection_id = [];
  version = 0;
  change_seq = 0;
  deleted = false;
  blob_key = none;
  size_bytes = none;
  created_at = 0;
  updated_at = 0;
}

abbrev pub zero_mutation : MutationResponse
zero_mutation = record { object = zero_object; collection_version = 0; replayed = none }

abbrev pub zero_deletion : DeleteResponse
zero_deletion = record {
  object = record { id = []; version = 0; change_seq = 0; deleted = false };
  collection_version = 0;
}

abbrev pub zero_conflict : Conflict
zero_conflict = record { error = []; current_version = 0; current_blob_key = none }

-- json.Unmarshal into struct { Error string }.
abbrev pub as_error : Body → Option Text
as_error (message e) = some e
as_error (conflict c) = some c.error
as_error not_object = none
as_error _ = some []

-- json.Unmarshal into Conflict.
abbrev pub as_conflict : Body → Option Conflict
as_conflict (message e) = some (record zero_conflict { error = e })
as_conflict (conflict c) = some c
as_conflict not_object = none
as_conflict _ = some zero_conflict

-- json.Unmarshal into MutationResponse.
abbrev pub as_mutation : Body → Option MutationResponse
as_mutation (mutation r) = some r
as_mutation (deletion r) = some (record {
  object = record zero_object {
    id = r.object.id;
    version = r.object.version;
    change_seq = r.object.change_seq;
    deleted = r.object.deleted;
  };
  collection_version = r.collection_version;
  replayed = none;
})
as_mutation not_object = none
as_mutation _ = some zero_mutation

-- json.Unmarshal into DeleteResponse.
abbrev pub as_deletion : Body → Option DeleteResponse
as_deletion (deletion r) = some r
as_deletion (mutation r) = some (record {
  object = record {
    id = r.object.id;
    version = r.object.version;
    change_seq = r.object.change_seq;
    deleted = r.object.deleted;
  };
  collection_version = r.collection_version;
})
as_deletion not_object = none
as_deletion _ = some zero_deletion
