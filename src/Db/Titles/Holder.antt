-- ===== src/Db/Titles/Holder.antt =====
-- Proofs about the notes that have had a title (server/src/db/repositories/note-titles-history.ts).
use mathlib.Core.List.Permᴰ
use bartleby.Prelude.{
  String, true, ◌≡◌, ◌↔◌, ◌==◌, List, [], ◌∷◌, map, arith, eq_iff, All, Bool-cases, inl, inr, ◌<◌,
  length,
}
use bartleby.Sql.{OrderBy, select, any}
use bartleby.Sql.Permute.{All-perm, length-perm}
use bartleby.Db.{Db, NoteTitleHistoryRow}
use bartleby.Db.Titles.{TitleResolution, resolution, resolve_title}

-- Some note has had the title, and it is this note only.
abbrev pub HasOnly : String → String → List NoteTitleHistoryRow → Type 0
HasOnly title id rows =
    (any (λ r. r.title == title) rows ≡ true) × All (λ r. r.title ≡ title → r.note_id ≡ id) rows

-- There are matches, and all are of one note.
abbrev pub AllOf : String → List TitleResolution → Type 0
AllOf id ms = (0 < length ms) × All (λ m. m.note_id ≡ id) ms

module _ (id : String) where
  AllOf-rows :
      (rows : List NoteTitleHistoryRow)
      → AllOf id (map resolution rows) ↔ ((0 < length rows) × All (λ r. r.note_id ≡ id) rows)
  AllOf-rows [] = (λ h. ground arith, λ h. ground arith)
  AllOf-rows (r ∷ rows) =
      (λ h. (omega arith, (h.1.0, to rows h.1.1)), λ h. (omega arith, (h.1.0, from rows h.1.1)))
    where
      to :
          (rs : List NoteTitleHistoryRow)
          → All (λ m. m.note_id ≡ id) (map resolution rs)
          → All (λ r. r.note_id ≡ id) rs
      to [] h = tt
      to (r ∷ rs) h = (h.0, to rs h.1)

      from :
          (rs : List NoteTitleHistoryRow)
          → All (λ r. r.note_id ≡ id) rs
          → All (λ m. m.note_id ≡ id) (map resolution rs)
      from [] h = tt
      from (r ∷ rs) h = (h.0, from rs h.1)

  All-select :
      (title : String) (rows : List NoteTitleHistoryRow)
      → All (λ r. r.note_id ≡ id) (select (λ r. r.title == title) rows)
        ↔ All (λ r. r.title ≡ title → r.note_id ≡ id) rows
  All-select title [] = (λ h. tt, λ h. tt)
  All-select title (r ∷ rows) = elim (Bool-cases (r.title == title)) [
    | inl hit ↦ rw hit (
      λ h. (λ e. h.0, (All-select title rows).0 h.1),
      λ h. (h.0 ((eq_iff r.title title).0 hit), (All-select title rows).1 h.1),
    )
    | inr miss ↦ rw miss (
      λ h. (λ e. ground (arith, eq_iff r.title title), (All-select title rows).0 h),
      λ h. (All-select title rows).1 h.1,
    )
  ]

some_selected :
    (title : String) (rows : List NoteTitleHistoryRow)
    → (0 < length (select (λ r. r.title == title) rows)) ↔ (any (λ r. r.title == title) rows ≡ true)
some_selected title [] = (λ h. ground arith, λ h. ground arith)
some_selected title (r ∷ rows) = ground (arith, some_selected title rows)

-- The matches of a title are of one note exactly if that note only has had it.
pub resolve_title-AllOf :
    (order : OrderBy) (title id : String) (db : Db)
    → AllOf id (resolve_title order title db) ↔ HasOnly title id db.note_titles_history
unfolding resolve_title
resolve_title-AllOf order title id db =
    let rows = select (λ r. r.title == title) db.note_titles_history in
    let perm = order.sort-perm _ rows in
    (
      λ h.
          let k = (AllOf-rows id _).0 h in
          (
            (some_selected title _).0 (rw (← length-perm perm) k.0),
            (All-select id title _).0 (All-perm _ perm k.1),
          ),
      λ h. (AllOf-rows id _).1 (
        rw (length-perm perm) ((some_selected title _).1 h.0),
        All-perm _ (Permᴰ.symm perm) ((All-select id title _).1 h.1),
      ),
    )
