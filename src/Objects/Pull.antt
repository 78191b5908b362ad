-- ===== src/Objects/Pull.antt =====
-- List of internal/objects/objects.go and handleListObjects of cmd/server/objects.go: the pull of
-- what changed after a cursor, page by page.
pub mod Order
pub mod Paging
use mathlib.Core.Option
use futo_notes_server.Objects.Steps.{is_row, owns_collection}
use futo_notes_server.Store.Sql.{select_where, select_row}
use futo_notes_server.Ids.{valid_uuid}
use futo_notes_server.Store.Monad.{Db, M, db_query, pure, fail, err_not_found}
use futo_notes_server.Store.Rows.{ObjectRow}
use futo_notes_server.Store.Monad.{◌>>=◌}
use futo_notes_server.Prelude.{
  ◌++◌, ℕ, zero, suc, ◌+◌, none, some, [], ◌∷◌, true, false, if◌then◌else◌, ◌||◌, ◌&&◌, ltb, Text,
  List, Bool, Option, take, text_eq, ◌++◌, ◌++◌, ◌==◌, ◌==◌, length,
}

-- Byte order on identifiers: s is not after t.
unfoldable pub text_le : Text → Text → Bool
text_le [] t = true
text_le (a ∷ s) [] = false
text_le (a ∷ s) (b ∷ t) = ltb a b || (a == b && text_le s t)

-- ORDER BY change_seq, id.
unfoldable pub not_after : ObjectRow → ObjectRow → Bool
not_after a b = ltb a.change_seq b.change_seq || (a.change_seq == b.change_seq && text_le a.id b.id)

unfoldable pub insert_ordered : ObjectRow → List ObjectRow → List ObjectRow
insert_ordered o [] = o ∷ []
insert_ordered o (r ∷ rs) = if not_after o r then o ∷ r ∷ rs else r ∷ insert_ordered o rs

unfoldable pub order_by_seq : List ObjectRow → List ObjectRow
order_by_seq [] = []
order_by_seq (r ∷ rs) = insert_ordered r (order_by_seq rs)

-- WHERE collection_id = $1 AND user_id = $2 AND change_seq > $3.
unfoldable pub changed_since : Text → Text → ℕ → ObjectRow → Bool
changed_since user_id collection_id since r =
    text_eq r.collection_id collection_id && text_eq r.user_id user_id && ltb since r.change_seq

-- The answer without LIMIT.
unfoldable pub all_changes : Text → Text → ℕ → Db → List ObjectRow
all_changes user_id collection_id since d =
    order_by_seq (select_where (changed_since user_id collection_id since) d.objects)

-- LIMIT limit + 1, and the page that is cut from it.
unfoldable pub list_rows : Text → Text → ℕ → Option ℕ → Db → List ObjectRow × Bool
list_rows user_id collection_id since none d = (all_changes user_id collection_id since d, false)
list_rows user_id collection_id since (some limit) d =
    let rows = take (limit + 1) (all_changes user_id collection_id since d) in
    if ltb limit (length rows) then (take limit rows, true) else (rows, false)

-- Exists, and what List answers.
unfoldable pub exists : Text → Text → M Bool
exists user_id collection_id =
    if valid_uuid collection_id
    then db_query (λ d. is_row (select_row (owns_collection user_id collection_id) d.collections))
    else pure false

unfoldable pub list : Text → Text → ℕ → Option ℕ → M (List ObjectRow × Bool)
list user_id collection_id since limit = do
  found ← exists user_id collection_id
  if found then db_query (list_rows user_id collection_id since limit) else fail err_not_found

abbrev pub max_pull_limit : ℕ
max_pull_limit = 1000

-- The parsed `limit` of the handler: `none` without one, and at most 1000.
unfoldable pub clamp_limit : ℕ → ℕ
clamp_limit n = if ltb max_pull_limit n then max_pull_limit else n

-- The cursor of the answer: the last row's change_seq, or the cursor that was asked.
unfoldable pub next_cursor : ℕ → List ObjectRow → ℕ
next_cursor since [] = since
next_cursor since (r ∷ rs) = next_cursor r.change_seq rs

-- One round of a client that asks until there is no more.
unfoldable pub pull_page :
    List ObjectRow × Bool → (ℕ → Option (List ObjectRow)) → ℕ → Option (List ObjectRow)
pull_page (rows, true) rest since =
    Option.map (λ more. rows ++ more) (rest (next_cursor since rows))
pull_page (rows, false) rest since = some rows

-- The rounds, of pages of `limit`; `none` means that the rounds ran out.
unfoldable pub pull : ℕ → Text → Text → ℕ → ℕ → Db → Option (List ObjectRow)
pull zero user_id collection_id limit since d = none
pull (suc fuel) user_id collection_id limit since d =
    pull_page (list_rows user_id collection_id since (some limit) d)
      (λ cursor. pull fuel user_id collection_id limit cursor d) since
