-- ===== src/Derived/Again.antt =====
-- Proofs about storing a document a second time (server/src/derived/hook.ts).
use bartleby.Prelude.{
  ℕ, String, ◌≡◌, refl, ◌∙◌, ap, some, List, [], eq_self, Bool-cases, Option-cases, inl, inr,
}
use bartleby.Http.{Result, ok, ◌>>=◌}
use bartleby.Sql.{find}
use bartleby.Sql.Rows.{keyed, find-update}
use bartleby.Db.{Db, NoteRow, MentionRow}
use bartleby.Db.Notes
use bartleby.Db.Notes.{is_live, note_id}
use bartleby.Derived.{Deps, Document, store_live, store_found, store_document}
use bartleby.Derived.Frame.{IsBlind, store_live-Keeps}
use bartleby.Derived.Quiet.{Unchanged, second_found}
use bartleby.Derived.Settled.{HasUsers, first_live}

-- The note is there, with that author.
HasAuthor : String → String → Db → Type 0
HasAuthor name author s =
    (row : NoteRow) × (find (keyed note_id name) s.notes ≡ some row) × (row.created_by ≡ author)

module _ (name author : String) where
  HasAuthor-IsBlind : IsBlind (HasAuthor name author)
  unfolding HasAuthor
  HasAuthor-IsBlind = record {
    tags = λ rows s h. h;
    backlinks = λ rows s h. h;
    comments = λ rows s h. h;
  }

  export-HasAuthor :
      (now : ℕ) (markdown : String) (s : Db)
      → HasAuthor name author s
      → HasAuthor name author (Notes.update_markdown_export name markdown now s)
  unfolding HasAuthor Notes.update_markdown_export
  export-HasAuthor now markdown s (row, there, same) =
      let f = λ (n : NoteRow). record n { markdown_export = markdown; updated_at = now } in
      (
        f row,
        rw (find-update note_id name name f (λ n. refl) s.notes, eq_self name, there) refl,
        same,
      )

  mentions-HasAuthor :
      (rows : List MentionRow) (s : Db)
      → HasAuthor name author s
      → HasAuthor name author (record s { mentions = rows })
  unfolding HasAuthor
  mentions-HasAuthor rows s h = h

module _ (deps : Deps) (name : String) (now now' : ℕ) (doc doc' : Document)
    (uuid uuid' : String → String) where
  again_found :
      (row : NoteRow) (db db' : Db) (ids : List String)
      → find (keyed note_id name) db.notes ≡ some row
      → doc'.markdown ≡ doc.markdown
      → store_live deps name now doc uuid row db ≡ (ok ids, db')
      → (store_document deps name now' doc' uuid' db').1.mentions ≡ db'.mentions
  unfolding store_document Notes.find_by_id HasAuthor HasUsers Unchanged ◌>>=◌
  again_found row db db' ids there same e =
      let author = row.created_by in
      let kept =
        (store_live-Keeps (HasAuthor name author) (HasAuthor-IsBlind name author)
            (mentions-HasAuthor name author) deps name now (export-HasAuthor name author now) doc
            uuid row).after
          db (row, there, refl) in
      let (row', there', same') = rw (ap (λ r. r.1) e) at kept in
      let settled = (first_live deps name db.users now doc uuid row).ends db db' ids refl e in
      rw there' (
        second_found deps name db.users db'.mentions now' doc' uuid' row' settled.markdown author
          same' (same ∙ settled.stored) settled.covered db' (settled.users, refl))

  -- The document's note is absent or trashed: the hook leaves it so.
  untouched :
      (db db' : Db) (ids : List String)
      → (store_document deps name now' doc' uuid' db).1.mentions ≡ db.mentions
      → Path (Result (List String) × Db) (ok [], db) (ok ids, db')
      → (store_document deps name now' doc' uuid' db').1.mentions ≡ db'.mentions
  untouched db db' ids h e = rw (← ap (λ r. r.1) e) h

  -- After a store of a document that succeeded, a further store of the same Markdown, at any time
  -- and with any new ids, leaves the table of mentions as it is, whether it succeeds or not.
  pub mentions-store_document :
      (db db' : Db) (ids : List String)
      → doc'.markdown ≡ doc.markdown
      → store_document deps name now doc uuid db ≡ (ok ids, db')
      → (store_document deps name now' doc' uuid' db').1.mentions ≡ db'.mentions
  unfolding store_document store_found Notes.find_by_id ◌>>=◌
  mentions-store_document db db' ids same e =
      elim (Option-cases (find (keyed note_id name) db.notes)) [
        | inl absent ↦ untouched db db' ids (rw absent refl) (rw absent at e)
        | inr (row, there) ↦ elim (Bool-cases (is_live row)) [
          | inl live ↦ again_found row db db' ids there same (rw (there, live) at e)
          | inr trashed ↦ untouched db db' ids (rw (there, trashed) refl) (rw (there, trashed) at e)
        ]
      ]
