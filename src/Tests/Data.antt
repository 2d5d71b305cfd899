-- ===== src/Tests/Data.antt =====
-- A small database: two users, one note with its history, a tag, a comment with a reply, snapshots and a mention.
use bartleby.Prelude.{ℕ, String, false, Option, none, some, [], ◌∷◌, refl}
use bartleby.Db.{Db, UserRow, NoteRow, CommentRow, SnapshotRow, MentionRow}
use bartleby.Db.Integrity.{IsValid}

abbrev pub alice : UserRow
alice = record {
  id = "u-alice";
  email = "alice@example.com";
  display_name = "Alice";
  color = "#e6194b";
  created_at = 0;
}

abbrev pub bob : UserRow
bob = record {
  id = "u-bob";
  email = "bob@example.com";
  display_name = "Bob";
  color = "#3cb44b";
  created_at = 0;
}

abbrev pub trip : NoteRow
trip = record {
  id = "n-trip";
  title = "Trip";
  created_by = "u-alice";
  created_at = 10;
  updated_at = 20;
  trashed_at = none;
  markdown_export = "pack @bob@example.com";
}

abbrev pub remark : CommentRow
remark = record {
  id = "c-1";
  note_id = "n-trip";
  author_id = "u-alice";
  parent_comment_id = none;
  anchor = "{}";
  original_quote = "pack";
  body = "what?";
  created_at = 30;
  resolved_at = none;
  is_orphaned = false;
}

abbrev pub reply : CommentRow
reply = record remark { id = "c-2"; author_id = "u-bob"; parent_comment_id = some "c-1" }

abbrev pub snapshot : String → Option String → ℕ → SnapshotRow
snapshot id label at = record {
  id = id;
  note_id = "n-trip";
  yjs_state = at ∷ [];
  created_at = at;
  label = label;
}

abbrev pub inbox_entry : MentionRow
inbox_entry = record {
  id = "m-1";
  note_id = "n-trip";
  mentioned_user_id = "u-bob";
  mentioning_user_id = "u-alice";
  source = "note:n-trip";
  created_at = 20;
  read_at = none;
  email_sent_at = none;
}

-- The database with one note, trashed at a time or live.
abbrev pub library : Option ℕ → Db
library trashed_at = record {
  users = alice ∷ bob ∷ [];
  notes = record trip { trashed_at = trashed_at } ∷ [];
  note_titles_history =
      record { note_id = "n-trip"; title = "Plan"; valid_from = 10; valid_to = some 15 }
      ∷ record { note_id = "n-trip"; title = "Trip"; valid_from = 15; valid_to = none }
      ∷ [];
  tags = record { note_id = "n-trip"; tag = "travel" } ∷ [];
  backlinks = [];
  comments = remark ∷ reply ∷ [];
  snapshots =
      snapshot "s-1" none 21 ∷ snapshot "s-2" (some "draft") 22 ∷ snapshot "s-3" none 23 ∷ [];
  mentions = inbox_entry ∷ [];
  documents = record { name = "n-trip"; state = 7 ∷ [] } ∷ [];
}

pub library-IsValid : (trashed_at : Option ℕ) → IsValid (library trashed_at)
library-IsValid trashed_at = record {
  distinct = (tt, tt);
  synced = (refl, tt);
  titles = (refl, (refl, tt));
  tags = (refl, tt);
  sources = tt;
  targets = tt;
  comments = (refl, (refl, tt));
  snapshots = (refl, (refl, (refl, tt)));
  mentions = (refl, tt);
}
