-- ===== src/Derived/Frame.antt =====
-- What the steps of server/src/derived/hook.ts leave alone: a property of the database that does not
-- read the tables `tags`, `backlinks` and `comments` outlives them.
use bartleby.Prelude.{
  ℕ, String, Bool, not, ◌&&◌, Option, none, some, List, [], ◌∷◌, Bool-cases, inl, inr,
}
use bartleby.Http.Keeps.{Keeps, keeps_rules, Keeps-pure, Keeps-gets, Keeps-require, Keeps-bind}
use bartleby.Sql.{any}
use bartleby.Sql.Rows.{keyed}
use bartleby.Db.{Db, NoteRow, TagRow, BacklinkRow, CommentRow, MentionRow, UserRow}
use bartleby.Db.Notes
use bartleby.Db.Notes.{note_id}
use bartleby.Db.Tags.{is_nil, replace_for_note}
use bartleby.Db.Backlinks.{BacklinkInput, dangles, replace_for_source}
use bartleby.Db.Comments.{set_orphaned}
use bartleby.Db.Mentions
use bartleby.Db.Mentions.{MentionInsert, refused}
use bartleby.Derived.{Deps, Document, add_mention, mention_each, refresh_each, store_live}

pub record IsBlind (P : Db → Type 0) : Type 0 where
  pub tags : (rows : List TagRow) (s : Db) → P s → P (record s { tags = rows })
  pub backlinks : (rows : List BacklinkRow) (s : Db) → P s → P (record s { backlinks = rows })
  pub comments : (rows : List CommentRow) (s : Db) → P s → P (record s { comments = rows })

module _ (P : Db → Type 0) (blind : IsBlind P) where
  pub replace_for_note-Keeps :
      (id : String) (tags : List String) → Keeps P (replace_for_note id tags)
  unfolding replace_for_note
  replace_for_note-Keeps id tags = record {
    after = λ s p. elim (Bool-cases (not (is_nil tags) && not (any (keyed note_id id) s.notes))) [
      | inl stop ↦ rw stop p
      | inr fine ↦ rw fine (blind.tags _ s p)
    ];
  }

  pub replace_for_source-Keeps :
      (source : String) (links : List BacklinkInput) → Keeps P (replace_for_source source links)
  unfolding replace_for_source
  replace_for_source-Keeps source links = record {
    after = λ s p. elim (Bool-cases (dangles s.notes source links)) [
      | inl stop ↦ rw stop p
      | inr fine ↦ rw fine (blind.backlinks _ s p)
    ];
  }

  set_orphaned_kept :
      (id : String) (orphaned : Bool) (s : Db) → P s → P (set_orphaned id orphaned s)
  unfolding set_orphaned
  set_orphaned_kept id orphaned s p = blind.comments _ s p

  pub refresh_each-Keeps :
      (deps : Deps) (name : String) (now : ℕ) (doc : Document) (comments : List CommentRow)
      → Keeps P (refresh_each deps name now doc comments)
  unfolding refresh_each
  refresh_each-Keeps deps name now doc [] = Keeps-pure P tt
  refresh_each-Keeps deps name now doc (comment ∷ comments) =
      Keeps-bind P _ _ (Keeps-require P _ _) λ orphaned.
        Keeps-bind P _ _ (search (keeps_rules, set_orphaned_kept))
          λ _. refresh_each-Keeps deps name now doc comments

  -- A property that does not read the mentions either.
  module _
      (mentions : (rows : List MentionRow) (s : Db) → P s → P (record s { mentions = rows })) where
    Mentions_insert-Keeps : (m : MentionInsert) → Keeps P (Mentions.insert m)
    unfolding Mentions.insert
    Mentions_insert-Keeps m = record {
      after = λ s p. elim (Bool-cases (refused m s)) [
        | inl stop ↦ rw stop p
        | inr fine ↦ rw fine (mentions _ s p)
      ];
    }

    add_mention-Keeps :
        (deps : Deps) (name : String) (now : ℕ) (uuid : String → String) (author email : String)
        (existing : List String) (found : Option UserRow)
        → Keeps P (add_mention deps name now uuid author email existing found)
    unfolding add_mention
    add_mention-Keeps deps name now uuid author email existing none = Keeps-pure P none
    add_mention-Keeps deps name now uuid author email existing (some user) =
        search (keeps_rules, Mentions_insert-Keeps)

    mention_each-Keeps :
        (deps : Deps) (name : String) (now : ℕ) (uuid : String → String) (author : String)
        (existing emails : List String)
        → Keeps P (mention_each deps name now uuid author existing emails)
    unfolding mention_each
    mention_each-Keeps deps name now uuid author existing [] = Keeps-pure P []
    mention_each-Keeps deps name now uuid author existing (email ∷ emails) =
        Keeps-bind P _ _ (Keeps-gets P _) λ found.
          Keeps-bind P _ _ (add_mention-Keeps deps name now uuid author email existing found)
            λ added.
              Keeps-bind P _ _ (mention_each-Keeps deps name now uuid author _ emails)
                λ inserted. Keeps-pure P _

    pub store_live-Keeps :
        (deps : Deps) (name : String) (now : ℕ)
        → ((markdown : String) (s : Db)
            → P s
            → P (Notes.update_markdown_export name markdown now s))
        → (doc : Document) (uuid : String → String) (row : NoteRow)
        → Keeps P (store_live deps name now doc uuid row)
    unfolding store_live
    store_live-Keeps deps name now export doc uuid row =
        search
          (
            keeps_rules, export, replace_for_note-Keeps, replace_for_source-Keeps,
            mention_each-Keeps, refresh_each-Keeps,
          )
          depth 40
