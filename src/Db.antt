-- ===== src/Db.antt =====
-- The database: one list of rows for each table that the migrations create
-- (server/src/db/migrations, server/src/db/repositories/types.ts) and for the one of Hocuspocus, and what a DELETE cascades to.
-- A timestamp is the number of milliseconds that its ISO text stands for: the texts of
-- `toISOString` have one width, so their order is the order of these numbers.
pub mod Notes
pub mod Titles
pub mod Tags
pub mod Backlinks
pub mod Users
pub mod Snapshots
pub mod Mentions
pub mod Comments
pub mod Integrity
use bartleby.Prelude.{ℕ, String, Bool, ◌==◌, Option, none, some, List, [], map, contains, ◌||◌}
use bartleby.Sql.{select, delete}

pub record UserRow : Type 0 where
  pub id : String
  pub email : String
  pub display_name : String
  pub color : String
  pub created_at : ℕ

pub record NoteRow : Type 0 where
  pub id : String
  pub title : String
  pub created_by : String
  pub created_at : ℕ
  pub updated_at : ℕ
  pub trashed_at : Option ℕ
  pub markdown_export : String

-- The column `id` of this table and of `backlinks` is the row's place in the table.
pub record NoteTitleHistoryRow : Type 0 where
  pub note_id : String
  pub title : String
  pub valid_from : ℕ
  pub valid_to : Option ℕ

pub record TagRow : Type 0 where
  pub note_id : String
  pub tag : String

pub record BacklinkRow : Type 0 where
  pub source_note_id : String
  pub target_note_id : String
  pub link_text : String

pub record CommentRow : Type 0 where
  pub id : String
  pub note_id : String
  pub author_id : String
  pub parent_comment_id : Option String
  pub anchor : String
  pub original_quote : String
  pub body : String
  pub created_at : ℕ
  pub resolved_at : Option ℕ
  pub is_orphaned : Bool

pub record SnapshotRow : Type 0 where
  pub id : String
  pub note_id : String
  pub yjs_state : List ℕ
  pub created_at : ℕ
  pub label : Option String

pub record MentionRow : Type 0 where
  pub id : String
  pub note_id : String
  pub mentioned_user_id : String
  pub mentioning_user_id : String
  pub source : String
  pub created_at : ℕ
  pub read_at : Option ℕ
  pub email_sent_at : Option ℕ

-- A row of the table that Hocuspocus's SQLite extension keeps the live documents in, in the same
-- file and outside the migrations (server/src/db/README.md). Its name is a note's id;
-- `state` is the column `data`.
pub record DocumentRow : Type 0 where
  pub name : String
  pub state : List ℕ

pub record Db : Type 0 where
  pub users : List UserRow
  pub notes : List NoteRow
  pub note_titles_history : List NoteTitleHistoryRow
  pub tags : List TagRow
  pub backlinks : List BacklinkRow
  pub comments : List CommentRow
  pub snapshots : List SnapshotRow
  pub mentions : List MentionRow
  pub documents : List DocumentRow

abbrev pub empty : Db
empty = record {
  users = [];
  notes = [];
  note_titles_history = [];
  tags = [];
  backlinks = [];
  comments = [];
  snapshots = [];
  mentions = [];
  documents = [];
}

abbrev pub ids : List NoteRow → List String
ids = map (λ n. n.id)

-- The rows that refer to deleted notes go with them (ON DELETE CASCADE).
unfoldable pub cascade : List String → Db → Db
cascade gone db = record db {
  note_titles_history = delete (λ r. contains r.note_id gone) db.note_titles_history;
  tags = delete (λ r. contains r.note_id gone) db.tags;
  backlinks =
      delete (λ r. contains r.source_note_id gone || contains r.target_note_id gone) db.backlinks;
  comments = delete (λ r. contains r.note_id gone) db.comments;
  snapshots = delete (λ r. contains r.note_id gone) db.snapshots;
  mentions = delete (λ r. contains r.note_id gone) db.mentions;
}

-- DELETE FROM notes WHERE p
unfoldable pub delete_notes : (NoteRow → Bool) → Db → Db
unfolding cascade
delete_notes p db = cascade (ids (select p db.notes)) (record db { notes = delete p db.notes })
