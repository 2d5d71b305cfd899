-- ===== src/Db/Tags.antt =====
-- server/src/db/repositories/tags.ts
pub mod Unique
use Prim.Native.Nat.{Ordering}
use Prim.Native.String.{compare}
use bartleby.Prelude.{
  String, Bool, true, false, ◌==◌, not, ◌&&◌, List, [], ◌∷◌, ◌++◌, map, contains, if◌then◌else◌,
}
use bartleby.Http.{Exec, internal, raise, modify, ◌>>=◌}
use bartleby.Sql.{OrderBy, select, delete, any}
use bartleby.Sql.Rows.{keyed}
use bartleby.Db.{Db, TagRow}
use bartleby.Db.Notes.{note_id}

-- `[...new Set(tags)]`: each text once, where it is seen first.
unique_from : List String → List String → List String
unique_from seen [] = []
unique_from seen (t ∷ ts) =
    let new = unique_from (t ∷ seen) ts in
    let old = unique_from seen ts in if contains t seen then old else t ∷ new

unfoldable pub unique : List String → List String
unfolding unique_from
unique = unique_from []

-- The order of texts, by code points.
abbrev pub text_le : String → String → Bool
text_le s t = elim (compare s t) [ Ordering.gt ↦ false | _ ↦ true ]

abbrev pub tag_rows : String → List String → List TagRow
tag_rows id [] = []
tag_rows id (t ∷ ts) = record { note_id = id; tag = t } ∷ tag_rows id ts

abbrev pub of_note : String → TagRow → Bool
of_note id r = r.note_id == id

abbrev pub is_nil : List String → Bool
is_nil [] = true
is_nil (x ∷ xs) = false

-- The transaction. A tag of a note that does not exist breaks the foreign key, and all is rolled
-- back.
unfoldable pub replace_for_note : String → List String → Exec Db Unit
unfolding ◌>>=◌
replace_for_note id tags db =
    if not (is_nil tags) && not (any (keyed note_id id) db.notes)
    then raise internal db
    else modify (λ d. record d { tags = delete (of_note id) d.tags ++ tag_rows id (unique tags) })
        db

module _ (order : OrderBy) where
  unfoldable pub list_for_note : String → Db → List String
  list_for_note id db =
      map (λ r. r.tag) (order.sort (λ r s. text_le r.tag s.tag) (select (of_note id) db.tags))

  unfoldable pub list_notes_by_tag : String → Db → List String
  list_notes_by_tag tag db =
      map (λ r. r.note_id)
        (order.sort (λ r s. text_le r.note_id s.note_id) (select (λ r. r.tag == tag) db.tags))
