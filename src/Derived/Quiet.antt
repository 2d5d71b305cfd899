-- ===== src/Derived/Quiet.antt =====
-- Proofs about the loop over the mentioned e-mails (server/src/derived/hook.ts) where nobody is new.
use bartleby.Prelude.{
  ℕ, String, true, ◌≡◌, refl, ◌∙◌, Option, some, List, [], ◌∷◌, map, contains, arith, All,
  Bool-cases, Option-cases, inl, inr,
}
use bartleby.Http.{Exec, Error, ok, gets, require, ◌>>=◌}
use bartleby.Http.Keeps.{Keeps, Keeps-gets, Keeps-pure, Keeps-bind, Keeps-modify}
use bartleby.Sql.{find}
use bartleby.Sql.Rows.{keyed}
use bartleby.Db.{Db, UserRow, NoteRow, MentionRow}
use bartleby.Db.Users
use bartleby.Db.Notes
use bartleby.Db.Notes.{is_live, note_id}
use bartleby.Db.Mentions
use bartleby.Derived.{
  Deps, Document, mentioned, body_source, is_skipped, add_mention, mention_each, store_live,
  store_found,
}
use bartleby.Derived.Emails.{extract_mention_emails}
use bartleby.Derived.Covered.{has, has-list_for_note, IsCovered}
use bartleby.Derived.Frame.{
  IsBlind, replace_for_note-Keeps, replace_for_source-Keeps, refresh_each-Keeps,
}

module _ (deps : Deps) (name : String) where
  module _ (author : String) (us : List UserRow) (ms : List MentionRow) where
    -- Where all e-mails are covered, the loop adds nothing.
    quiet :
        (uuid : String → String) (now : ℕ) (existing emails : List String) (s : Db)
        → s.users ≡ us
        → s.mentions ≡ ms
        → ((user : String) → has name user ms ≡ true → contains user existing ≡ true)
        → All (IsCovered deps name author us ms) emails
        → mention_each deps name now uuid author existing emails s ≡ (ok [], s)
    unfolding mention_each add_mention ◌>>=◌ Users.find_by_email
    quiet uuid now existing [] s u m k c = refl
    quiet uuid now existing (email ∷ emails) s u m k c =
        elim (Option-cases (find (keyed Users.user_email email) s.users)) [
          | inl nobody ↦ rw (nobody, quiet uuid now existing emails s u m k c.1) refl
          | inr (user, there) ↦
              let here = rw u at there in
              let skip : is_skipped author user.id existing ≡ true =
                ground (arith, c.0 user here, k user.id) in
              rw (there, skip, quiet uuid now existing emails s u m k c.1) refl
        ]

    -- The tables that the loop reads and writes, as they were.
    unfoldable pub Unchanged : Db → Type 0
    Unchanged s = (s.users ≡ us) × (s.mentions ≡ ms)

    Unchanged-IsBlind : IsBlind Unchanged
    unfolding Unchanged
    Unchanged-IsBlind = record {
      tags = λ rows s h. h;
      backlinks = λ rows s h. h;
      comments = λ rows s h. h;
    }

    export-Unchanged :
        (markdown : String) (now : ℕ) (s : Db)
        → Unchanged s
        → Unchanged (Notes.update_markdown_export name markdown now s)
    unfolding Unchanged Notes.update_markdown_export
    export-Unchanged markdown now s h = h

    quiet_block :
        (uuid : String → String) (now : ℕ) (emails : List String) {A : Type 0}
        (next : List String → Exec Db A)
        → All (IsCovered deps name author us ms) emails
        → Keeps Unchanged (next [])
        → Keeps Unchanged (do
          existing ← gets (λ db.
              map mentioned (Mentions.list_for_note deps.order name (some (body_source name)) db))
          inserted ← mention_each deps name now uuid author existing emails
          next inserted)
    unfolding Unchanged ◌>>=◌
    quiet_block uuid now emails next c k = record {
      after = λ s (u, m).
          let existing =
            map mentioned (Mentions.list_for_note deps.order name (some (body_source name)) s) in
          let listed : (user : String) → has name user ms ≡ true → contains user existing ≡ true =
            λ user h. has-list_for_note deps.order name user s ∙ rw m h in
          rw (quiet uuid now existing emails s u m listed c) (k.after s (u, m));
    }

given_markdown :
    {S A B : Type 0} (P : S → Type 0) (o : Option A) (problem : Error) (a : A) (next : A → Exec S B)
    → o ≡ some a
    → Keeps P (next a)
    → Keeps P (do b ← require o problem; next b)
unfolding ◌>>=◌
given_markdown P o problem a next e k = rw e (record { after = k.after })

module _ (deps : Deps) (name : String) (us : List UserRow) (ms : List MentionRow) where
  second_live :
      (now : ℕ) (doc : Document) (uuid : String → String) (row : NoteRow) (markdown : String)
      → doc.markdown ≡ some markdown
      → All
          (IsCovered deps name row.created_by us ms)
          (extract_mention_emails deps.to_lower_case markdown)
      → Keeps (Unchanged deps name row.created_by us ms) (store_live deps name now doc uuid row)
  unfolding store_live
  second_live now doc uuid row markdown e c =
      let F = Unchanged deps name row.created_by us ms in
      let blind = Unchanged-IsBlind deps name row.created_by us ms in
      given_markdown F _ _ markdown _ e (
        Keeps-bind F _ _
          (Keeps-modify F _ (export-Unchanged deps name row.created_by us ms markdown now))
          λ _. Keeps-bind F _ _ (replace_for_note-Keeps F blind _ _) λ _.
            Keeps-bind F _ _ (Keeps-gets F _) λ links.
              Keeps-bind F _ _ (replace_for_source-Keeps F blind _ _) λ _.
                quiet_block deps name row.created_by us ms uuid now _ _ c (
                  Keeps-bind F _ _ (Keeps-gets F _) λ comments.
                    Keeps-bind F _ _ (refresh_each-Keeps F blind deps name now doc comments)
                      λ _. Keeps-pure F []))

  -- The same, for a note that is found.
  pub second_found :
      (now : ℕ) (doc : Document) (uuid : String → String) (row : NoteRow) (markdown author : String)
      → row.created_by ≡ author
      → doc.markdown ≡ some markdown
      → All (IsCovered deps name author us ms) (extract_mention_emails deps.to_lower_case markdown)
      → (s : Db) → Unchanged deps name author us ms s
      → (store_found deps name now doc uuid (some row) s).1.mentions ≡ ms
  unfolding store_found Unchanged ◌>>=◌
  second_found now doc uuid row markdown author same e c s u = elim (Bool-cases (is_live row)) [
    | inr trashed ↦ rw trashed u.1
    | inl live ↦ rw live ((second_live now doc uuid row markdown e (rw same c)).after s u).1
  ]
