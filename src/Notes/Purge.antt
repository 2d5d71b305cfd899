-- ===== src/Notes/Purge.antt =====
-- The trash purger (server/src/notes/purge.ts): `runOnce` of the hourly job.
use bartleby.Prelude.{
  ℕ, String, Bool, false, ◌≡◌, ◌≢◌, refl, ap, contains, ◌||◌, ◌-◌, ◌+◌, ◌*◌, ◌==◌, none, some, List,
  [], ◌∷◌, ltb, arith, eq_iff, if◌then◌else◌, All, Bool-cases, inl, inr,
}
use bartleby.Sql.{select, delete, find}
use bartleby.Sql.Rows.{keyed, Distinct}
use bartleby.Db.{Db, NoteRow, ids, delete_notes, cascade}
use bartleby.Db.Notes
use bartleby.Db.Notes.{note_id, is_stale}

-- 30 days, in milliseconds.
abbrev pub default_retention : ℕ
default_retention = 30 * 24 * 60 * 60 * 1000

-- A clock before the retention window gives a cutoff before 1970, and then nothing is stale; so
-- does the cutoff 0.
unfoldable pub run_once : ℕ → ℕ → Db → List String × Db
run_once retention now = Notes.purge_older_than (now - retention)

find_absent :
    (p : NoteRow → Bool) (id : String) (notes : List NoteRow)
    → All (λ n. n.id ≢ id) notes
    → find (keyed note_id id) (delete p notes) ≡ none
find_absent p id [] h = refl
find_absent p id (n ∷ ns) h = ground (arith, eq_iff n.id id, find_absent p id ns h.1)

find-delete_where :
    (p : NoteRow → Bool) (id : String) (notes : List NoteRow) (n : NoteRow)
    → Distinct note_id notes
    → find (keyed note_id id) notes ≡ some n
    → find (keyed note_id id) (delete p notes) ≡ (if p n then none else some n)
find-delete_where p id [] n d e = ground arith
find-delete_where p id (m ∷ ms) n d e = elim (Bool-cases (m.id == id)) [
  | inl same ↦
      let gone = find_absent p id ms (rw (← (eq_iff m.id id).0 same) d.0) in ground (arith, gone)
  | inr other ↦ ground (arith, find-delete_where p id ms n d.1)
]

-- When a note was trashed so long ago that the purger takes it.
abbrev pub is_expired : ℕ → ℕ → NoteRow → Bool
is_expired retention now n = elim n.trashed_at [ none ↦ false | some t ↦ ltb (t + retention) now ]

stale_iff_expired :
    (retention now : ℕ) (n : NoteRow) → is_stale (now - retention) n ≡ is_expired retention now n
stale_iff_expired retention now n = ground arith

-- Where note ids are distinct, a run of the purger deletes a note just where it was trashed more
-- than the retention time before; any other note, live or in the trash, is found as before.
pub find_by_id-run_once :
    (retention now : ℕ) (id : String) (n : NoteRow) (db : Db)
    → Distinct note_id db.notes
    → Notes.find_by_id id db ≡ some n
    → Notes.find_by_id id (run_once retention now db).1
      ≡ (if is_expired retention now n then none else some n)
unfolding run_once Notes.purge_older_than Notes.find_by_id
find_by_id-run_once retention now id n db d e =
    rw (← stale_iff_expired retention now n)
      (find-delete_where (is_stale (now - retention)) id db.notes n d e)

module _ {A : Type 0} (p q : A → Bool) (same : (x : A) → p x ≡ q x) where
  select_same : (xs : List A) → select p xs ≡ select q xs
  select_same [] = refl
  select_same (x ∷ xs) = ground (arith, same x, select_same xs)

  delete_same : (xs : List A) → delete p xs ≡ delete q xs
  delete_same [] = refl
  delete_same (x ∷ xs) = ground (arith, same x, delete_same xs)

-- What a run does: it deletes the expired notes and reports their ids, and of the tables of the
-- schema just the rows that refer to one of them go. The documents stay.
pub record IsPurged (retention now : ℕ) (db : Db) (out : List String × Db) : Type 0 where
  pub reported : out.0 ≡ ids (select (is_expired retention now) db.notes)
  pub notes : out.1.notes ≡ delete (is_expired retention now) db.notes
  pub history :
      out.1.note_titles_history ≡ delete (λ r. contains r.note_id out.0) db.note_titles_history
  pub tags : out.1.tags ≡ delete (λ r. contains r.note_id out.0) db.tags
  pub backlinks :
      out.1.backlinks
      ≡ delete
          (λ r. contains r.source_note_id out.0 || contains r.target_note_id out.0)
          db.backlinks
  pub comments : out.1.comments ≡ delete (λ r. contains r.note_id out.0) db.comments
  pub snapshots : out.1.snapshots ≡ delete (λ r. contains r.note_id out.0) db.snapshots
  pub mentions : out.1.mentions ≡ delete (λ r. contains r.note_id out.0) db.mentions
  pub documents : out.1.documents ≡ db.documents

-- A run of the purger deletes just the notes that were trashed more than the retention time before
-- and reports their ids; of the tables of the schema just the rows that refer to a reported note
-- are deleted; the table documents, in which Hocuspocus keeps the notes' texts, is left as it was.
pub run_once-IsPurged :
    (retention now : ℕ) (db : Db) → IsPurged retention now db (run_once retention now db)
unfolding run_once Notes.purge_older_than delete_notes cascade
run_once-IsPurged retention now db =
    let same = stale_iff_expired retention now in
    record {
      reported = ap ids (select_same _ _ same db.notes);
      notes = delete_same _ _ same db.notes;
      history = refl;
      tags = refl;
      backlinks = refl;
      comments = refl;
      snapshots = refl;
      mentions = refl;
      documents = refl;
    }
