-- ===== src/Db/Integrity/Tables.antt =====
-- Lemmas on the tables of server/src/db that no other table but their own refers to, and a valid
-- database.
use bartleby.Prelude.{List, All}
use bartleby.Db.{Db, UserRow, TagRow, BacklinkRow, CommentRow, SnapshotRow, MentionRow}
use bartleby.Db.Integrity.{IsPresent, IsValid}

-- Such a table may change, as long as its own references hold.
module _ (db : Db) (v : IsValid db) where
  pub with_users : (rows : List UserRow) → IsValid (record db { users = rows })
  with_users rows = record {
    distinct = v.distinct;
    synced = v.synced;
    titles = v.titles;
    tags = v.tags;
    sources = v.sources;
    targets = v.targets;
    comments = v.comments;
    snapshots = v.snapshots;
    mentions = v.mentions;
  }

  pub with_tags :
      (rows : List TagRow)
      → All (λ r. IsPresent db.notes r.note_id) rows
      → IsValid (record db { tags = rows })
  with_tags rows h = record {
    distinct = v.distinct;
    synced = v.synced;
    titles = v.titles;
    tags = h;
    sources = v.sources;
    targets = v.targets;
    comments = v.comments;
    snapshots = v.snapshots;
    mentions = v.mentions;
  }

  pub with_backlinks :
      (rows : List BacklinkRow)
      → All (λ r. IsPresent db.notes r.source_note_id) rows
      → All (λ r. IsPresent db.notes r.target_note_id) rows
      → IsValid (record db { backlinks = rows })
  with_backlinks rows h k = record {
    distinct = v.distinct;
    synced = v.synced;
    titles = v.titles;
    tags = v.tags;
    sources = h;
    targets = k;
    comments = v.comments;
    snapshots = v.snapshots;
    mentions = v.mentions;
  }

  pub with_comments :
      (rows : List CommentRow)
      → All (λ r. IsPresent db.notes r.note_id) rows
      → IsValid (record db { comments = rows })
  with_comments rows h = record {
    distinct = v.distinct;
    synced = v.synced;
    titles = v.titles;
    tags = v.tags;
    sources = v.sources;
    targets = v.targets;
    comments = h;
    snapshots = v.snapshots;
    mentions = v.mentions;
  }

  pub with_snapshots :
      (rows : List SnapshotRow)
      → All (λ r. IsPresent db.notes r.note_id) rows
      → IsValid (record db { snapshots = rows })
  with_snapshots rows h = record {
    distinct = v.distinct;
    synced = v.synced;
    titles = v.titles;
    tags = v.tags;
    sources = v.sources;
    targets = v.targets;
    comments = v.comments;
    snapshots = h;
    mentions = v.mentions;
  }

  pub with_mentions :
      (rows : List MentionRow)
      → All (λ r. IsPresent db.notes r.note_id) rows
      → IsValid (record db { mentions = rows })
  with_mentions rows h = record {
    distinct = v.distinct;
    synced = v.synced;
    titles = v.titles;
    tags = v.tags;
    sources = v.sources;
    targets = v.targets;
    comments = v.comments;
    snapshots = v.snapshots;
    mentions = h;
  }
