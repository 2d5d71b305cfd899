-- ===== src/Derived/Settled.antt =====
-- Proofs about what a run of server/src/derived/hook.ts makes sure of.
use bartleby.Prelude.{ℕ, String, ◌≡◌, sym, ◌∙◌, some, List, [], map, All}
use bartleby.Http.{internal, pure}
use bartleby.Http.Keeps.{Keeps-gets, Keeps-modify}
use bartleby.Http.Yields.{
  Yields, Yields-require, Yields-known, Yields-before, Yields-pure, Yields-Keeps, Yields-weaken,
  Yields-gets, Yields-bind,
}
use bartleby.Db.{Db, UserRow, NoteRow}
use bartleby.Db.Notes
use bartleby.Db.Notes.{is_live, note_id}
use bartleby.Db.Mentions
use bartleby.Derived.{Deps, Document, mentioned, body_source, store_live}
use bartleby.Derived.Emails.{extract_mention_emails}
use bartleby.Derived.Covered.{
  has-list_for_note, IsCovered, IsDone, reversed, All-reversed, mention_each-IsDone,
}
use bartleby.Derived.Frame.{
  IsBlind, replace_for_note-Keeps, replace_for_source-Keeps, refresh_each-Keeps,
}

module _ (deps : Deps) (name : String) (us : List UserRow) where
  -- What a live note's run makes sure of.
  pub record IsSettled (author : String) (doc : Document) (s : Db) : Type 0 where
    pub users : s.users ≡ us
    pub markdown : String
    pub stored : doc.markdown ≡ some markdown
    pub covered :
        All
          (IsCovered deps name author us s.mentions)
          (extract_mention_emails deps.to_lower_case markdown)

  unfoldable pub HasUsers : Db → Type 0
  HasUsers s = s.users ≡ us

  HasUsers-IsBlind : IsBlind HasUsers
  unfolding HasUsers
  HasUsers-IsBlind = record {
    tags = λ rows s h. h;
    backlinks = λ rows s h. h;
    comments = λ rows s h. h;
  }

  export-HasUsers :
      (markdown : String) (now : ℕ) (s : Db)
      → HasUsers s
      → HasUsers (Notes.update_markdown_export name markdown now s)
  unfolding HasUsers Notes.update_markdown_export
  export-HasUsers markdown now s h = h

  IsDone-IsBlind :
      (author : String) (existing done : List String)
      → IsBlind (IsDone deps name author us existing done)
  IsDone-IsBlind author existing done = record {
    tags = λ rows s h. record { users = h.users; known = h.known; covered = h.covered };
    backlinks = λ rows s h. record { users = h.users; known = h.known; covered = h.covered };
    comments = λ rows s h. record { users = h.users; known = h.known; covered = h.covered };
  }

  listed-IsDone :
      (author : String) (existing : List String) (s : Db)
      → map mentioned (Mentions.list_for_note deps.order name (some (body_source name)) s)
        ≡ existing
      → HasUsers s
      → IsDone deps name author us existing [] s
  unfolding HasUsers
  listed-IsDone author existing s e h = record {
    users = h;
    known = λ user k. sym (has-list_for_note deps.order name user s) ∙ rw e k;
    covered = tt;
  }

  pub first_live :
      (now : ℕ) (doc : Document) (uuid : String → String) (row : NoteRow)
      → Yields HasUsers
          (store_live deps name now doc uuid row)
          (λ ids s. IsSettled row.created_by doc s)
  unfolding store_live
  first_live now doc uuid row =
      let U = HasUsers in
      let blind = HasUsers-IsBlind in
      let emails = extract_mention_emails deps.to_lower_case in
      let D = λ (markdown : String).
        IsDone deps name row.created_by us [] (reversed (emails markdown) []) in
      Yields-bind U _ _ _ _ (Yields-require U doc.markdown internal) λ markdown.
        Yields-known _ U _ _ λ stored.
          Yields-bind U (λ _. U) _ _ _
            (Yields-Keeps U _ (Keeps-modify U _ (export-HasUsers markdown now)))
            λ _.
              Yields-bind U (λ _. U) _ _ _ (Yields-Keeps U _ (replace_for_note-Keeps U blind _ _))
                λ _.
                  Yields-bind U (λ _. U) _ _ _ (Yields-Keeps U _ (Keeps-gets U _))
                    λ links.
                      Yields-bind U (λ _. U) _ _ _
                        (Yields-Keeps U _ (replace_for_source-Keeps U blind _ _))
                        λ _. Yields-bind U _ _ _ _ (Yields-gets U _) λ existing.
                          Yields-bind _ (λ _. D markdown) _ _ _
                            (Yields-before _ _ _ _
                              (λ s (e, u). listed-IsDone row.created_by existing s e u)
                              (mention_each-IsDone deps name row.created_by us uuid now existing []
                                (emails markdown)))
                            λ inserted.
                              Yields-bind (D markdown) (λ _. D markdown) _ _ _
                                (Yields-Keeps _ _ (Keeps-gets _ _))
                                λ comments.
                                  Yields-bind (D markdown) (λ _. D markdown) _ _ _
                                    (Yields-Keeps _ _ (
                                      refresh_each-Keeps (D markdown)
                                        (IsDone-IsBlind row.created_by [] _) deps name now doc
                                        comments))
                                    λ _. settle row.created_by doc markdown stored inserted
    where
      settle :
          (author : String) (doc : Document) (markdown : String)
          → doc.markdown ≡ some markdown
          → (inserted : List String)
          → Yields
              (IsDone deps name author us []
                (reversed (extract_mention_emails deps.to_lower_case markdown) []))
              (pure inserted)
              (λ ids s. IsSettled author doc s)
      settle author doc markdown stored inserted =
          Yields-weaken _ _ _ _ (Yields-pure _ inserted) λ ids s d. record {
            users = d.users;
            markdown = markdown;
            stored = stored;
            covered = (All-reversed _ _ [] d.covered).0;
          }
