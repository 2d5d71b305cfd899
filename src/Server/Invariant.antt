-- ===== src/Server/Invariant.antt =====
-- Proofs about the server as a sequence of calls.
use bartleby.Db.{Db, empty}
use bartleby.Db.Integrity.{IsValid}

pub empty-IsValid : IsValid empty
empty-IsValid = record {
  distinct = tt;
  synced = tt;
  titles = tt;
  tags = tt;
  sources = tt;
  targets = tt;
  comments = tt;
  snapshots = tt;
  mentions = tt;
}
