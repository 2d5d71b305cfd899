-- ===== src/Db/Integrity/Writes.antt =====
-- Lemmas on writes to `notes` and its title history and a valid database.
use mathlib.Core.List.{append-nil}
use bartleby.Prelude.{
  ℕ, String, Bool, true, false, ◌≡◌, ◌≢◌, refl, ◌==◌, none, List, [], ◌∷◌, arith, eq_iff, All,
  All-append, All-map_of, if◌then◌else◌, Bool-cases, inl, inr, ◌⊎◌, eq_self,
}
use bartleby.Sql.{update, insert, any}
use bartleby.Sql.Rows.{
  Distinct, Distinct-insert, Distinct-update, any_absent, keyed, All-update, select-append,
}
use bartleby.Db.{Db, NoteRow, NoteTitleHistoryRow, ids}
use bartleby.Db.Notes.{note_id}
use bartleby.Db.Titles.{is_open_for, close}
use bartleby.Db.Titles.History.{select_closed, select_others}
use bartleby.Db.Integrity.{open_titles, IsSynced, IsPresent, IsValid}

-- The history after the transaction of `append`.
abbrev pub retitled : String → String → ℕ → List NoteTitleHistoryRow → List NoteTitleHistoryRow
retitled id title at rows =
    insert (record { note_id = id; title = title; valid_from = at; valid_to = none })
      (update (is_open_for id) (close at) rows)

open_titles-retitled :
    (id j title : String) (at : ℕ) (rows : List NoteTitleHistoryRow)
    → open_titles j (retitled id title at rows)
      ≡ (if id == j then title ∷ [] else open_titles j rows)
open_titles-retitled id j title at rows = rw select-append (elim (Bool-cases (id == j)) [
  | inl same ↦ rw (← (eq_iff id j).0 same, eq_self id, select_closed id at rows)
  | inr other ↦
      rw (other, select_others id j at rows (λ e. ground (arith, eq_iff id j)), append-nil)
])

ids-update :
    (p : NoteRow → Bool) (f : NoteRow → NoteRow) (fixes : (n : NoteRow) → (f n).id ≡ n.id)
    (notes : List NoteRow)
    → ids (update p f notes) ≡ ids notes
ids-update p f fixes [] = refl
ids-update p f fixes (n ∷ ns) = ground (arith, fixes n, ids-update p f fixes ns)

-- New notes and a new history, where every old note is still there.
replace_notes :
    (db : Db) (notes : List NoteRow) (history : List NoteTitleHistoryRow)
    → ((id : String) → IsPresent db.notes id → IsPresent notes id)
    → Distinct note_id notes
    → IsSynced notes history
    → All (λ r. IsPresent notes r.note_id) history
    → IsValid db
    → IsValid (record db { notes = notes; note_titles_history = history })
replace_notes db notes history grow d s t v = record {
  distinct = d;
  synced = s;
  titles = t;
  tags = All-map_of _ _ (λ r. grow r.note_id) db.tags v.tags;
  sources = All-map_of _ _ (λ r. grow r.source_note_id) db.backlinks v.sources;
  targets = All-map_of _ _ (λ r. grow r.target_note_id) db.backlinks v.targets;
  comments = All-map_of _ _ (λ r. grow r.note_id) db.comments v.comments;
  snapshots = All-map_of _ _ (λ r. grow r.note_id) db.snapshots v.snapshots;
  mentions = All-map_of _ _ (λ r. grow r.note_id) db.mentions v.mentions;
}

same_ids :
    (p : NoteRow → Bool) (f : NoteRow → NoteRow) (fixes : (n : NoteRow) → (f n).id ≡ n.id)
    (notes : List NoteRow) (id : String)
    → IsPresent notes id
    → IsPresent (update p f notes) id
same_ids p f fixes notes id h = rw (ids-update p f fixes notes) h

-- An UPDATE that leaves ids and titles alone.
pub update_notes-IsValid :
    (p : NoteRow → Bool) (f : NoteRow → NoteRow) (db : Db)
    → ((n : NoteRow) → (f n).id ≡ n.id)
    → ((n : NoteRow) → (f n).title ≡ n.title)
    → IsValid db
    → IsValid (record db { notes = update p f db.notes })
update_notes-IsValid p f db fixes keeps v =
    replace_notes db (update p f db.notes) db.note_titles_history (same_ids p f fixes db.notes)
      (Distinct-update note_id p f fixes db.notes v.distinct)
      (All-update _ p f (λ n h. rw (fixes n, keeps n) h) db.notes v.synced)
      (All-map_of _ _ (λ r. same_ids p f fixes db.notes r.note_id) db.note_titles_history v.titles)
      v

abbrev renamed : String → ℕ → NoteRow → NoteRow
renamed title at n = record n { title = title; updated_at = at }

IsSynced-retitled :
    (id title : String) (at now : ℕ) (history : List NoteTitleHistoryRow) (notes : List NoteRow)
    → IsSynced notes history
    → IsSynced (update (keyed note_id id) (renamed title now) notes) (retitled id title at history)
IsSynced-retitled id title at now history [] s = tt
IsSynced-retitled id title at now history (n ∷ ns) s =
    (here (Bool-cases (n.id == id)), IsSynced-retitled id title at now history ns s.1)
  where
    here :
        ((n.id == id) ≡ true) ⊎ ((n.id == id) ≡ false)
        → open_titles
            (if n.id == id then renamed title now n else n).id
            (retitled id title at history)
          ≡ (if n.id == id then renamed title now n else n).title ∷ []
    here (inl e) =
        rw (e, open_titles-retitled id n.id title at history)
          (ground (arith, eq_iff n.id id, eq_iff id n.id))
    here (inr e) = rw e (
        ground (
          arith,
          eq_iff n.id id,
          eq_iff id n.id,
          open_titles-retitled id n.id title at history,
          s.0,
        ))

titles-retitled :
    (id title : String) (at : ℕ) (history : List NoteTitleHistoryRow) (notes : List NoteRow)
    → IsPresent notes id
    → All (λ r. IsPresent notes r.note_id) history
    → All (λ r. IsPresent notes r.note_id) (retitled id title at history)
titles-retitled id title at history notes h t =
    All-append _ (update (is_open_for id) (close at) history) _
      (All-update _ (is_open_for id) (close at) (λ r k. k) history t) (h, tt)

-- A rename, with the row that it adds to the history.
pub rename-IsValid :
    (id title : String) (at now : ℕ) (db : Db)
    → IsPresent db.notes id
    → IsValid db
    → IsValid (record db {
      notes = update (keyed note_id id) (renamed title now) db.notes;
      note_titles_history = retitled id title at db.note_titles_history;
    })
rename-IsValid id title at now db h v =
    let p = keyed note_id id in
    let f = renamed title now in
    replace_notes db (update p f db.notes) (retitled id title at db.note_titles_history)
      (same_ids p f (λ n. refl) db.notes)
      (Distinct-update note_id p f (λ n. refl) db.notes v.distinct)
      (IsSynced-retitled id title at now db.note_titles_history db.notes v.synced)
      (titles-retitled id title at db.note_titles_history (update p f db.notes)
        (same_ids p f (λ n. refl) db.notes id h)
        (All-map_of _ _ (λ r. same_ids p f (λ n. refl) db.notes r.note_id) db.note_titles_history
          v.titles))
      v

IsPresent-append :
    (id : String) (n : NoteRow) (notes : List NoteRow)
    → IsPresent notes id
    → IsPresent (insert n notes) id
IsPresent-append id n [] h = cc
IsPresent-append id n (m ∷ ms) h = ground (arith, IsPresent-append id n ms)

IsPresent-last : (n : NoteRow) (notes : List NoteRow) → IsPresent (insert n notes) n.id
IsPresent-last n [] = rw (eq_self n.id)
IsPresent-last n (m ∷ ms) = ground (arith, IsPresent-last n ms)

IsSynced-others :
    (id title : String) (at : ℕ) (history : List NoteTitleHistoryRow) (notes : List NoteRow)
    → All (λ n. n.id ≢ id) notes
    → IsSynced notes history
    → IsSynced notes (retitled id title at history)
IsSynced-others id title at history [] h s = tt
IsSynced-others id title at history (n ∷ ns) h s = (
  ground (arith, eq_iff id n.id, open_titles-retitled id n.id title at history),
  IsSynced-others id title at history ns h.1 s.1,
)

-- A new note, with the first row of its history.
pub create-IsValid :
    (n : NoteRow) (at : ℕ) (db : Db)
    → any (keyed note_id n.id) db.notes ≡ false
    → IsValid db
    → IsValid (record db {
      notes = insert n db.notes;
      note_titles_history = retitled n.id n.title at db.note_titles_history;
    })
create-IsValid n at db fresh v =
    let history : List NoteTitleHistoryRow = retitled n.id n.title at db.note_titles_history in
    replace_notes db (insert n db.notes) history (λ id. IsPresent-append id n db.notes)
      (Distinct-insert note_id n db.notes fresh v.distinct)
      (All-append (λ m. open_titles m.id history ≡ m.title ∷ []) db.notes (n ∷ [])
        (IsSynced-others n.id n.title at db.note_titles_history db.notes
          (any_absent note_id n.id db.notes fresh) v.synced)
        (rw (open_titles-retitled n.id n.id n.title at db.note_titles_history, eq_self n.id), tt))
      (titles-retitled n.id n.title at db.note_titles_history (insert n db.notes)
        (IsPresent-last n db.notes)
        (All-map_of _ _ (λ r. IsPresent-append r.note_id n db.notes) db.note_titles_history
          v.titles))
      v

-- The check of the foreign key.
pub IsPresent-of_any :
    (id : String) (notes : List NoteRow) → any (keyed note_id id) notes ≡ true → IsPresent notes id
IsPresent-of_any id [] h = cc
IsPresent-of_any id (n ∷ ns) h = ground (arith, IsPresent-of_any id ns)
