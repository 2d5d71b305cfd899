-- ===== src/Db/Integrity/Preserves.antt =====
-- Lemmas on the writes of the repositories (server/src/db/repositories) and a valid database.
use bartleby.Prelude.{
  ℕ, String, true, false, ◌≡◌, refl, ◌||◌, ◌&&◌, eq_self, not, List, [], ◌∷◌, ◌++◌, arith, All,
  All-append, contains, Bool-cases, inl, inr, some,
}
use bartleby.Http.{Exec, modify, ◌>>◌}
use bartleby.Http.Keeps.{Keeps}
use bartleby.Sql.{OrderBy, insert, any, delete}
use bartleby.Sql.Rows.{keyed, All-delete, All-update, any-update, update_absent}
use bartleby.Db.{Db, NoteRow, UserRow, SnapshotRow}
use bartleby.Db.Notes
use bartleby.Db.Notes.{note_id, user_id}
use bartleby.Db.Titles
use bartleby.Db.Tags
use bartleby.Db.Tags.{tag_rows, unique, of_note, is_nil}
use bartleby.Db.Users
use bartleby.Db.Users.{user_email}
use bartleby.Db.Snapshots
use bartleby.Db.Snapshots.{snapshot_id}
use bartleby.Db.Mentions
use bartleby.Db.Mentions.{mention_id, MentionInsert, refused, fresh_row}
use bartleby.Db.Integrity.{IsPresent, IsValid}
use bartleby.Db.Integrity.Tables.{with_users, with_tags, with_snapshots, with_mentions}
use bartleby.Db.Integrity.Cascade.{delete_notes-IsValid}
use bartleby.Db.Integrity.Writes.{
  update_notes-IsValid, rename-IsValid, create-IsValid, IsPresent-of_any,
}

pub soft_delete-IsValid :
    (id : String) (at : ℕ) (db : Db) → IsValid db → IsValid (Notes.soft_delete id at db)
unfolding Notes.soft_delete
soft_delete-IsValid id at db v = update_notes-IsValid _ _ db (λ n. refl) (λ n. refl) v

pub restore-IsValid : (id : String) (db : Db) → IsValid db → IsValid (Notes.restore id db)
unfolding Notes.restore
restore-IsValid id db v = update_notes-IsValid _ _ db (λ n. refl) (λ n. refl) v

pub update_markdown_export-IsValid :
    (id markdown : String) (at : ℕ) (db : Db)
    → IsValid db
    → IsValid (Notes.update_markdown_export id markdown at db)
unfolding Notes.update_markdown_export
update_markdown_export-IsValid id markdown at db v =
    update_notes-IsValid _ _ db (λ n. refl) (λ n. refl) v

pub hard_delete-IsValid : (id : String) (db : Db) → IsValid db → IsValid (Notes.hard_delete id db)
unfolding Notes.hard_delete
hard_delete-IsValid id db v = delete_notes-IsValid _ db v

pub purge_older_than-IsValid :
    (cutoff : ℕ) (db : Db) → IsValid db → IsValid (Notes.purge_older_than cutoff db).1
unfolding Notes.purge_older_than
purge_older_than-IsValid cutoff db v = delete_notes-IsValid _ db v

pub Users_insert-IsValid : (u : UserRow) → Keeps IsValid (Users.insert u)
unfolding Users.insert
Users_insert-IsValid u = record {
  after = λ db v.
      elim (Bool-cases
        (any (keyed user_id u.id) db.users || any (keyed user_email u.email) db.users)) [
          | inl stop ↦ rw stop v
          | inr fine ↦ rw fine (with_users db v (insert u db.users))
        ];
}

any-insert : (n : NoteRow) (ns : List NoteRow) → any (keyed note_id n.id) (insert n ns) ≡ true
any-insert n [] = rw (eq_self n.id)
any-insert n (m ∷ ms) = ground (arith, any-insert n ms)

-- The two statements that make a note.
pub insert-append-IsValid :
    (n : NoteRow) (at : ℕ) {A : Type 0} (k : Exec Db A)
    → Keeps IsValid k
    → Keeps IsValid (do Notes.insert n; Titles.append n.id n.title at; k)
unfolding Notes.insert Titles.append
insert-append-IsValid n at k kk = record { after = go }
  where
    go :
        (db : Db)
        → IsValid db
        → IsValid ((do Notes.insert n; Titles.append n.id n.title at; k) db).1
    go db v =
        elim (Bool-cases
          (any (keyed note_id n.id) db.notes || not (any (keyed user_id n.created_by) db.users))) [
            | inl stop ↦ rw stop v
            | inr fine ↦
                let fresh : any (keyed note_id n.id) db.notes ≡ false = ground arith in
                let v' = kk.after _ (create-IsValid n at db fresh v) in
                rw (fine, any-insert n db.notes) v'
          ]

tag_rows-IsPresent :
    (notes : List NoteRow) (id : String) (ts : List String)
    → IsPresent notes id
    → All (λ r. IsPresent notes r.note_id) (tag_rows id ts)
tag_rows-IsPresent notes id [] h = tt
tag_rows-IsPresent notes id (t ∷ ts) h = (h, tag_rows-IsPresent notes id ts h)

pub replace_for_note-IsValid :
    (id : String) (tags : List String) → Keeps IsValid (Tags.replace_for_note id tags)
unfolding Tags.replace_for_note unique
replace_for_note-IsValid id tags = record {
  after = λ db v. elim (Bool-cases (not (is_nil tags) && not (any (keyed note_id id) db.notes))) [
    | inl stop ↦ rw stop v
    | inr fine ↦ rw fine (with_tags db v _ (kept db v tags fine))
  ];
}
  where
    fresh :
        (db : Db) (ts : List String)
        → (not (is_nil ts) && not (any (keyed note_id id) db.notes)) ≡ false
        → All (λ r. IsPresent db.notes r.note_id) (tag_rows id (unique ts))
    fresh db [] e = tt
    fresh db (t ∷ ts) e =
        tag_rows-IsPresent db.notes id (unique (t ∷ ts))
          (IsPresent-of_any id db.notes (ground arith))

    kept :
        (db : Db)
        → IsValid db
        → (ts : List String) → (not (is_nil ts) && not (any (keyed note_id id) db.notes)) ≡ false
        → All
            (λ r. IsPresent db.notes r.note_id)
            (delete (of_note id) db.tags ++ tag_rows id (unique ts))
    kept db v ts e =
        All-append _ (delete (of_note id) db.tags) _ (All-delete _ (of_note id) db.tags v.tags)
          (fresh db ts e)

pub Snapshots_insert-IsValid : (s : SnapshotRow) → Keeps IsValid (Snapshots.insert s)
unfolding Snapshots.insert
Snapshots_insert-IsValid s = record {
  after = λ db v.
      elim (Bool-cases (
        any (keyed snapshot_id s.id) db.snapshots
        || not (any (keyed note_id s.note_id) db.notes))) [
          | inl stop ↦ rw stop v
          | inr fine ↦ rw fine (
              with_snapshots db v (insert s db.snapshots) (
                All-append _ db.snapshots (s ∷ []) v.snapshots
                  (IsPresent-of_any s.note_id db.notes (ground arith), tt)))
        ];
}

pub prune_auto_snapshots-IsValid :
    (order : OrderBy) (id : String) (keep : ℕ) (db : Db)
    → IsValid db
    → IsValid (Snapshots.prune_auto_snapshots order id keep db).1
unfolding Snapshots.prune_auto_snapshots
prune_auto_snapshots-IsValid order id keep db v =
    with_snapshots db v _ (All-delete _ _ db.snapshots v.snapshots)

pub Mentions_insert-IsValid : (m : MentionInsert) → Keeps IsValid (Mentions.insert m)
unfolding Mentions.insert
Mentions_insert-IsValid m = record {
  after = λ db v. elim (Bool-cases (refused m db)) [
    | inl stop ↦ rw stop v
    | inr fine ↦ rw fine (
        with_mentions db v (insert (fresh_row m) db.mentions) (
          All-append _ db.mentions (fresh_row m ∷ []) v.mentions
            (IsPresent-of_any m.note_id db.notes (ground arith), tt)))
  ];
}

pub mark_read-IsValid :
    (id : String) (at : ℕ) (db : Db) → IsValid db → IsValid (Mentions.mark_read id at db)
unfolding Mentions.mark_read
mark_read-IsValid id at db v = with_mentions db v _ (
    All-update _ (keyed mention_id id) (λ m. record m { read_at = some at }) (λ m h. h) db.mentions
      v.mentions)

pub mark_email_sent-IsValid :
    (ids : List String) (at : ℕ) (db : Db)
    → IsValid db
    → IsValid (Mentions.mark_email_sent ids at db)
unfolding Mentions.mark_email_sent
mark_email_sent-IsValid ids at db v = with_mentions db v _ (
    All-update _ (λ m. contains m.id ids) (λ m. record m { email_sent_at = some at }) (λ m h. h)
      db.mentions v.mentions)

-- The two statements of a rename.
pub update_title-append-IsValid :
    (id title : String) (now : ℕ)
    → Keeps IsValid (do modify (Notes.update_title id title now); Titles.append id title now)
unfolding Notes.update_title Titles.append
update_title-append-IsValid id title now = record {
  after = λ db v.
      let f : NoteRow → NoteRow = λ n. record n { title = title; updated_at = now } in
      let same = any-update note_id id (keyed note_id id) f (λ n. refl) db.notes in
      elim (Bool-cases (any (keyed note_id id) db.notes)) [
        | inl there ↦
            rw (same, there)
              (rename-IsValid id title now now db (IsPresent-of_any id db.notes there) v)
        | inr absent ↦ rw (same, absent, update_absent (keyed note_id id) f db.notes absent) v
      ];
}
