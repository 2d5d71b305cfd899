-- ===== src/Derived.antt =====
-- The derived state of a note (server/src/derived/hook.ts): what is stored of a document beside the
-- document itself. Parameters: SQLite's sorter, the packages yaml and yjs, `JSON.parse` and
-- `toLowerCase`. `uuid` gives the id of the row for a mentioned e-mail.
pub mod Code
pub mod Tags
pub mod Links
pub mod Emails
pub mod Invariant
pub mod Resolver
pub mod Frame
pub mod Covered
pub mod Quiet
pub mod Settled
pub mod Again
use Prim.Native.String
use bartleby.Prelude.{
  ℕ, String, Bool, true, false, not, ◌||◌, ◌==◌, Option, none, some, List, [], ◌∷◌, map, contains,
  is_some, if◌then◌else◌,
}
use bartleby.Json.{Json}
use bartleby.Http.{Exec, internal, pure, gets, modify, require, ◌>>=◌, ◌>>◌}
use bartleby.Sql.{OrderBy}
use bartleby.Db.{Db, NoteRow, UserRow, CommentRow, MentionRow}
use bartleby.Db.Users
use bartleby.Db.Notes
use bartleby.Db.Notes.{is_live}
use bartleby.Db.Titles
use bartleby.Db.Tags.{unique, replace_for_note}
use bartleby.Db.Backlinks
use bartleby.Db.Mentions
use bartleby.Db.Mentions.{MentionInsert}
use bartleby.Db.Comments
use bartleby.Comments.Anchor.{is_anchor_orphaned}
use bartleby.Derived.Tags.{Yaml, extract_tags}
use bartleby.Derived.Links.{extract_backlinks, resolve_backlinks}
use bartleby.Derived.Emails.{extract_mention_emails}

-- A Yjs document: its Markdown, and whether a position in it is gone. `none` is a throw.
pub record Document : Type 0 where
  pub markdown : Option String
  pub gone : Json → Option Bool

pub record Deps : Type 1 where
  pub order : OrderBy
  pub parse_yaml : String → Option Yaml
  pub parse_json : String → Option Json
  pub to_lower_case : String → String

abbrev only : List String → Option String
only [] = none
only (id ∷ []) = some id
only (id ∷ more) = none

abbrev pub mentioned : MentionRow → String
mentioned m = m.mentioned_user_id

abbrev same : Bool → Bool → Bool
same a b = if a then b else not b

-- `note:${documentName}`
abbrev pub body_source : String → String
body_source name = String.◌++◌ "note:" name

abbrev pub with_user : Option String → List String → List String
with_user none existing = existing
with_user (some user) existing = user ∷ existing

-- The author, and who has been mentioned, are not.
abbrev pub is_skipped : String → String → List String → Bool
is_skipped author user existing = user == author || contains user existing

-- A title that two notes have had stands for none of them.
unfoldable pub title_resolver : OrderBy → Db → String → Option String
unfolding unique
title_resolver order db title =
    only (unique (map (λ m. m.note_id) (Titles.resolve_title order title db)))

module _ (deps : Deps) (name : String) (now : ℕ) where
  -- The rows for the e-mails, and the ids that `onMentionInserted` is called with. `existing` has
  -- the users that the note's text already mentions.
  module _ (uuid : String → String) (author : String) where
    abbrev pub row_for : String → String → MentionInsert
    row_for email user = record {
      id = uuid email;
      note_id = name;
      mentioned_user_id = user;
      mentioning_user_id = author;
      source = body_source name;
      created_at = now;
    }

    -- One round: the user that is mentioned anew, if there is one.
    pub add_mention : String → List String → Option UserRow → Exec Db (Option String)
    add_mention email existing none = pure none
    add_mention email existing (some user) =
        if is_skipped author user.id existing
        then pure none
        else do Mentions.insert (row_for email user.id); pure (some user.id)

    pub mention_each : List String → List String → Exec Db (List String)
    unfolding add_mention
    mention_each existing [] = pure []
    mention_each existing (email ∷ emails) = do
      found ← gets (Users.find_by_email email)
      added ← add_mention email existing found
      inserted ← mention_each (with_user added existing) emails
      pure (if is_some added then uuid email ∷ inserted else inserted)

  -- A comment is written only if its flag changes.
  pub refresh_each : Document → List CommentRow → Exec Db Unit
  refresh_each doc [] = pure tt
  refresh_each doc (comment ∷ comments) = do
    orphaned ← require (is_anchor_orphaned deps.parse_json doc.gone comment.anchor) internal
    if same orphaned comment.is_orphaned
        then pure tt
        else modify (Comments.set_orphaned comment.id orphaned)
    refresh_each doc comments

  pub store_live : Document → (String → String) → NoteRow → Exec Db (List String)
  unfolding mention_each refresh_each
  store_live doc uuid row = do
    markdown ← require doc.markdown internal
    modify (Notes.update_markdown_export name markdown now)
    replace_for_note name (extract_tags deps.parse_yaml deps.to_lower_case markdown)
    links ←
        gets (λ db. resolve_backlinks (extract_backlinks markdown) (title_resolver deps.order db))
    Backlinks.replace_for_source name links
    existing ←
        gets (λ db.
          map mentioned (Mentions.list_for_note deps.order name (some (body_source name)) db))
    inserted ←
        mention_each uuid row.created_by existing
          (extract_mention_emails deps.to_lower_case markdown)
    comments ← gets (Comments.list_by_note deps.order name true)
    refresh_each doc comments
    pure inserted

  -- A note that is not there or trashed is left as it is.
  pub store_found : Document → (String → String) → Option NoteRow → Exec Db (List String)
  unfolding store_live
  store_found doc uuid none = pure []
  store_found doc uuid (some row) = if is_live row then store_live doc uuid row else pure []

  -- `onStoreDocument`, with the ids of the rows that it adds to `mentions`.
  unfoldable pub store_document : Document → (String → String) → Exec Db (List String)
  unfolding store_found
  store_document doc uuid = do found ← gets (Notes.find_by_id name); store_found doc uuid found
