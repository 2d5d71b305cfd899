-- ===== src/Db/Integrity/Cascade.antt =====
-- Lemmas on a deletion of notes, with what it cascades to, and a valid database.
use bartleby.Prelude.{
  String, Bool, true, false, ◌≡◌, ◌≢◌, refl, ap, ◌∙◌, ◌||◌, List, [], ◌∷◌, arith, eq_iff, All,
  contains, Bool-cases, inl, inr,
}
use bartleby.Sql.{select, delete}
use bartleby.Sql.Rows.{Distinct, Distinct-delete, All-delete}
use bartleby.Db.{Db, NoteRow, NoteTitleHistoryRow, ids, delete_notes}
use bartleby.Db.Notes.{note_id}
use bartleby.Db.Integrity.{open_titles, IsSynced, IsPresent, IsValid}

module _ (p : NoteRow → Bool) where
  not_selected :
      (id : String) (notes : List NoteRow)
      → All (λ n. n.id ≢ id) notes
      → contains id (ids (select p notes)) ≡ false
  not_selected id [] h = refl
  not_selected id (n ∷ ns) h = ground (arith, eq_iff n.id id, not_selected id ns h.1)

  kept_is_not_gone :
      (notes : List NoteRow)
      → Distinct note_id notes
      → All (λ n. contains n.id (ids (select p notes)) ≡ false) (delete p notes)
  kept_is_not_gone [] d = tt
  kept_is_not_gone (n ∷ ns) d = elim (Bool-cases (p n)) [
    | inl gone ↦ rw (gone) (others (delete p ns) (All-delete _ p ns d.0) (kept_is_not_gone ns d.1))
    | inr kept ↦ rw (kept) (not_selected n.id ns d.0, kept_is_not_gone ns d.1)
  ]
    where
      others :
          (ms : List NoteRow)
          → All (λ m. m.id ≢ n.id) ms
          → All (λ m. contains m.id (ids (select p ns)) ≡ false) ms
          → All (λ m. contains m.id (n.id ∷ ids (select p ns)) ≡ false) ms
      others [] h k = tt
      others (m ∷ ms) h k = ground (arith, eq_iff n.id m.id, others ms h.1 k.1)

  kept_is_present :
      (id : String) (notes : List NoteRow)
      → contains id (ids notes) ≡ true
      → contains id (ids (select p notes)) ≡ false
      → contains id (ids (delete p notes)) ≡ true
  kept_is_present id [] h k = cc
  kept_is_present id (n ∷ ns) h k = ground (arith, kept_is_present id ns)

-- The history of a note that stays is not touched.
open_titles-delete :
    (id : String) (gone : List String) (rows : List NoteTitleHistoryRow)
    → contains id gone ≡ false
    → open_titles id (delete (λ r. contains r.note_id gone) rows) ≡ open_titles id rows
open_titles-delete id gone [] h = refl
open_titles-delete id gone (r ∷ rs) h = elim (Bool-cases (contains r.note_id gone)) [
  | inl hit ↦
      rw hit (ground (arith, eq_iff r.note_id id, open_titles-delete id gone rs h, moved hit))
  | inr miss ↦ rw miss (ground (arith, open_titles-delete id gone rs h))
]
  where
    moved : contains r.note_id gone ≡ true → r.note_id ≢ id
    moved hit e = ground (arith, ap (λ (t : String). contains t gone) e)

IsSynced-delete :
    (gone : List String) (history : List NoteTitleHistoryRow) (notes : List NoteRow)
    → All (λ n. contains n.id gone ≡ false) notes
    → IsSynced notes history
    → IsSynced notes (delete (λ r. contains r.note_id gone) history)
IsSynced-delete gone history [] h s = tt
IsSynced-delete gone history (n ∷ ns) h s =
    (open_titles-delete n.id gone history h.0 ∙ s.0, IsSynced-delete gone history ns h.1 s.1)

IsSynced-kept :
    (p : NoteRow → Bool) (history : List NoteTitleHistoryRow) (notes : List NoteRow)
    → IsSynced notes history
    → IsSynced (delete p notes) history
IsSynced-kept p history notes s = All-delete _ p notes s

-- A child row that stays refers to a note that stays.
module _ {A : Type 0} (ref : A → String) (gone : A → Bool) (p : NoteRow → Bool)
    (notes : List NoteRow)
    (covers : (a : A) → gone a ≡ false → contains (ref a) (ids (select p notes)) ≡ false) where
  children_stay :
      (rows : List A)
      → All (λ r. IsPresent notes (ref r)) rows
      → All (λ r. IsPresent (delete p notes) (ref r)) (delete gone rows)
  children_stay [] h = tt
  children_stay (r ∷ rs) h = elim (Bool-cases (gone r)) [
    | inl hit ↦ rw hit (children_stay rs h.1)
    | inr miss ↦ rw miss (kept_is_present p (ref r) notes h.0 (covers r miss), children_stay rs h.1)
  ]

pub delete_notes-IsValid : (p : NoteRow → Bool) (db : Db) → IsValid db → IsValid (delete_notes p db)
unfolding delete_notes
delete_notes-IsValid p db v =
    let gone : List String = ids (select p db.notes) in
    record {
      distinct = Distinct-delete note_id p db.notes v.distinct;
      synced =
          IsSynced-delete gone db.note_titles_history (delete p db.notes)
            (kept_is_not_gone p db.notes v.distinct)
            (IsSynced-kept p db.note_titles_history db.notes v.synced);
      titles = children_stay _ _ p db.notes (λ a e. e) db.note_titles_history v.titles;
      tags = children_stay _ _ p db.notes (λ a e. e) db.tags v.tags;
      sources =
          children_stay (λ r. r.source_note_id) _ p db.notes (λ a e. (neither _ _ e).0) db.backlinks
            v.sources;
      targets =
          children_stay (λ r. r.target_note_id) _ p db.notes (λ a e. (neither _ _ e).1) db.backlinks
            v.targets;
      comments = children_stay _ _ p db.notes (λ a e. e) db.comments v.comments;
      snapshots = children_stay _ _ p db.notes (λ a e. e) db.snapshots v.snapshots;
      mentions = children_stay _ _ p db.notes (λ a e. e) db.mentions v.mentions;
    }
  where
    neither : (b c : Bool) → (b || c) ≡ false → (b ≡ false) × (c ≡ false)
    neither b c e = ground arith
