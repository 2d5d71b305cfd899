-- ===== src/Notes/Lifecycle.antt =====
-- Proofs about soft delete, restore and hard delete (server/src/notes/routes.ts).
use bartleby.Prelude.{
  ℕ, String, true, false, ◌≡◌, ◌≢◌, refl, sym, ap, ◌==◌, Option, none, some, List, [], ◌∷◌, arith,
  eq_iff, if◌then◌else◌, All, Option-cases, Bool-cases, inl, inr, eq_self, eq_of_ne, ◌∙◌, contains,
}
use bartleby.Http.{Result, ok, err, not_found, ◌>>=◌}
use bartleby.Sql.{OrderBy, update, find}
use bartleby.Sql.Rows.{keyed, Distinct, find-update, find-delete}
use bartleby.Db.{Db, NoteRow, ids}
use bartleby.Db.Notes
use bartleby.Db.Notes.{note_id, is_live}
use bartleby.Db.Integrity.{IsValid, IsPresent}
use bartleby.Db.Integrity.Preserves.{hard_delete-IsValid}
use bartleby.Db.Tags
use bartleby.Notes.{NoteSummary, summary, get_note, delete_note, restore_note}

trash : ℕ → NoteRow → NoteRow
trash at n = record n { trashed_at = some at }

bring_back : NoteRow → NoteRow
bring_back n = record n { trashed_at = none }

untouched :
    (id : String) (at : ℕ) (notes : List NoteRow)
    → All (λ n. n.id ≢ id) notes
    → update (keyed note_id id) bring_back (update (keyed note_id id) (trash at) notes) ≡ notes
unfolding trash bring_back
untouched id at [] h = refl
untouched id at (n ∷ ns) h = ground (arith, eq_iff n.id id, untouched id at ns h.1)

back_from_trash :
    (id : String) (at : ℕ) (notes : List NoteRow) (n : NoteRow)
    → Distinct note_id notes
    → find (keyed note_id id) notes ≡ some n
    → n.trashed_at ≡ none
    → update (keyed note_id id) bring_back (update (keyed note_id id) (trash at) notes) ≡ notes
unfolding trash bring_back
back_from_trash id at [] n d e live = refl
back_from_trash id at (m ∷ ms) n d e live = elim (Bool-cases (m.id == id)) [
  | inl same ↦
      let rest = untouched id at ms (rw (← (eq_iff m.id id).0 same) d.0) in ground (arith, rest)
  | inr other ↦ ground (arith, back_from_trash id at ms n d.1)
]

trashed_is_found :
    (id : String) (at : ℕ) (n : NoteRow) (db : Db)
    → Notes.find_by_id id db ≡ some n
    → Notes.find_by_id id (Notes.soft_delete id at db) ≡ some (trash at n)
unfolding Notes.find_by_id Notes.soft_delete trash
trashed_is_found id at n db e =
    rw (find-update note_id id id (trash at) (λ m. refl) db.notes, eq_self id, e)

restore-soft_delete :
    (id : String) (at : ℕ) (n : NoteRow) (db : Db)
    → IsValid db
    → Notes.find_by_id id db ≡ some n
    → n.trashed_at ≡ none
    → Notes.restore id (Notes.soft_delete id at db) ≡ db
unfolding Notes.find_by_id Notes.restore Notes.soft_delete trash bring_back
restore-soft_delete id at n db v e live =
    ap (λ ns. record db { notes = ns }) (back_from_trash id at db.notes n v.distinct e live)

-- On a valid database, deleting a live note and restoring it both succeed and leave the database
-- exactly as it was, its tags, title history, comments and snapshots included.
pub restore_note-delete_note :
    (id : String) (now : ℕ) (n : NoteRow) (db : Db)
    → IsValid db
    → Notes.find_by_id id db ≡ some n
    → n.trashed_at ≡ none
    → (db' : Db) × (delete_note id false now db ≡ (ok tt, db'))
      × (restore_note id db' ≡ (ok tt, db))
unfolding delete_note restore_note ◌>>=◌
restore_note-delete_note id now n db v e live = (
  Notes.soft_delete id now db,
  rw (e, delete_note),
  rw (trashed_is_found id now n db e, restore_note) (rw (restore-soft_delete id now n db v e live)),
)

soft_delete_of_ok :
    (id : String) (now : ℕ) (db db' : Db)
    → delete_note id false now db ≡ (ok tt, db')
    → (n : NoteRow) × (Notes.find_by_id id db ≡ some n) × (db' ≡ Notes.soft_delete id now db)
unfolding delete_note ◌>>=◌
soft_delete_of_ok id now db db' e = elim (Option-cases (Notes.find_by_id id db)) [
  | inl missing ↦ cc (rw (missing, delete_note) at e)
  | inr (n, found) ↦ (n, found, sym (ap (λ r. r.1) (rw (found, delete_note) at e)))
]

module _ (order : OrderBy) where
  abbrev answer : Db → Option NoteRow → Result NoteSummary
  answer db none = err not_found
  answer db (some n) = if is_live n then ok (summary order db n) else err not_found

  get_note-answer :
      (j : String) (db : Db) → (get_note order j db).0 ≡ answer db (Notes.find_by_id j db)
  unfolding get_note ◌>>=◌
  get_note-answer j db = ground arith

  summary_in_trash :
      (id : String) (now : ℕ) (db : Db) (n : NoteRow)
      → summary order (Notes.soft_delete id now db) n ≡ summary order db n
  unfolding summary Tags.list_for_note Notes.soft_delete
  summary_in_trash id now db n = refl

  answer_in_trash :
      (id : String) (now : ℕ) (db : Db) (o : Option NoteRow)
      → answer (Notes.soft_delete id now db) o ≡ answer db o
  answer_in_trash id now db none = refl
  answer_in_trash id now db (some n) = rw (summary_in_trash id now db n)

find_in_trash :
    (id j : String) (now : ℕ) (n : NoteRow) (db : Db)
    → Notes.find_by_id id db ≡ some n
    → Notes.find_by_id j (Notes.soft_delete id now db)
      ≡ (if id == j then some (trash now n) else Notes.find_by_id j db)
unfolding Notes.find_by_id Notes.soft_delete trash
find_in_trash id j now n db found = elim (Bool-cases (id == j)) [
  | inl same ↦ rw (
    same,
    ← (eq_iff id j).0 same,
    find-update note_id id id (trash now) (λ m. refl) db.notes,
    eq_self id,
    found,
  )
  | inr other ↦ rw (find-update note_id id j (trash now) (λ m. refl) db.notes, other)
]

-- After a soft delete that succeeded the note cannot be fetched, and any other note is fetched with
-- the same answer as before.
pub get_note-delete_note :
    (order : OrderBy) (id j : String) (now : ℕ) (db db' : Db)
    → delete_note id false now db ≡ (ok tt, db')
    → (get_note order j db').0 ≡ (if id == j then err not_found else (get_note order j db).0)
unfolding trash
get_note-delete_note order id j now db db' e =
    let (n, found, after) = soft_delete_of_ok id now db db' e in
    rw (after, get_note-answer, get_note-answer, find_in_trash id j now n db found)
      (elim (Bool-cases (id == j)) [
        | inl same ↦ rw same
        | inr other ↦ rw other (answer_in_trash order id now db (Notes.find_by_id j db))
      ])

-- What a hard delete leaves.
pub record IsErased (id : String) (db db' : Db) : Type 0 where
  pub was : (n : NoteRow) × (Notes.find_by_id id db ≡ some n) × (n.trashed_at ≢ none)
  pub gone : Notes.find_by_id id db' ≡ none
  pub others : (j : String) → id ≢ j → Notes.find_by_id j db' ≡ Notes.find_by_id j db
  pub history : All (λ r. r.note_id ≢ id) db'.note_titles_history
  pub tags : All (λ r. r.note_id ≢ id) db'.tags
  pub sources : All (λ r. r.source_note_id ≢ id) db'.backlinks
  pub targets : All (λ r. r.target_note_id ≢ id) db'.backlinks
  pub comments : All (λ r. r.note_id ≢ id) db'.comments
  pub snapshots : All (λ r. r.note_id ≢ id) db'.snapshots
  pub mentions : All (λ r. r.note_id ≢ id) db'.mentions
  pub documents : db'.documents ≡ db.documents

not_present :
    (id : String) (notes : List NoteRow)
    → find (keyed note_id id) notes ≡ none
    → contains id (ids notes) ≡ false
not_present id [] e = refl
not_present id (n ∷ ns) e = ground (arith, not_present id ns)

no_row :
    {A : Type 0} (ref : A → String) (id : String) (notes : List NoteRow) (rows : List A)
    → find (keyed note_id id) notes ≡ none
    → All (λ r. IsPresent notes (ref r)) rows
    → All (λ r. ref r ≢ id) rows
no_row ref id notes [] e h = tt
no_row ref id notes (r ∷ rs) e h = (
  λ same. cc (not_present id notes e, ap (λ (k : String). contains k (ids notes)) same),
  no_row ref id notes rs e h.1,
)

hard_delete_of_ok :
    (id : String) (now : ℕ) (db db' : Db)
    → delete_note id true now db ≡ (ok tt, db')
    → (n : NoteRow) × (Notes.find_by_id id db ≡ some n)
      × (n.trashed_at ≢ none)
      × (db' ≡ Notes.hard_delete id db)
unfolding delete_note ◌>>=◌
hard_delete_of_ok id now db db' e = elim (Option-cases (Notes.find_by_id id db)) [
  | inl missing ↦ cc (rw (missing, delete_note) at e)
  | inr (n, found) ↦ elim (Bool-cases (is_live n)) [
    | inl live ↦ cc (rw (found, delete_note, live) at e)
    | inr trashed ↦
        (n, found, ground arith, sym (ap (λ r. r.1) (rw (found, delete_note, trashed) at e)))
  ]
]

find-hard_delete :
    (id j : String) (db : Db)
    → Notes.find_by_id j (Notes.hard_delete id db)
      ≡ (if id == j then none else Notes.find_by_id j db)
unfolding Notes.find_by_id Notes.hard_delete
find-hard_delete id j db = find-delete note_id id j db.notes

-- On a valid database, a hard delete that succeeds means that the note was there and in the trash,
-- that it is gone, that no row of any table of the schema refers to it any more, and that every
-- other note is found as before; the table documents, in which Hocuspocus keeps the notes' texts,
-- is left as it was, the deleted note's row included.
pub delete_note-IsErased :
    (id : String) (now : ℕ) (db db' : Db)
    → IsValid db
    → delete_note id true now db ≡ (ok tt, db')
    → IsErased id db db'
unfolding Notes.find_by_id Notes.hard_delete
delete_note-IsErased id now db db' v e =
    let (n, found, trashed, after) = hard_delete_of_ok id now db db' e in
    rw after (erased n found trashed)
  where
    erased :
        (n : NoteRow)
        → Notes.find_by_id id db ≡ some n
        → n.trashed_at ≢ none
        → IsErased id db (Notes.hard_delete id db)
    erased n found trashed =
        let none_left = find-hard_delete id id db ∙ rw (eq_self id) in
        let w = hard_delete-IsValid id db v in
        let d = Notes.hard_delete id db in
        let missing : find (keyed note_id id) d.notes ≡ none = none_left in
        record {
          was = (n, found, trashed);
          gone = none_left;
          others = λ j ne. find-hard_delete id j db ∙ rw (eq_of_ne id j ne);
          history = no_row _ id d.notes d.note_titles_history missing w.titles;
          tags = no_row _ id d.notes d.tags missing w.tags;
          sources = no_row (λ r. r.source_note_id) id d.notes d.backlinks missing w.sources;
          targets = no_row (λ r. r.target_note_id) id d.notes d.backlinks missing w.targets;
          comments = no_row _ id d.notes d.comments missing w.comments;
          snapshots = no_row _ id d.notes d.snapshots missing w.snapshots;
          mentions = no_row _ id d.notes d.mentions missing w.mentions;
          documents = refl;
        }
