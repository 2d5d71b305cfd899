-- ===== src/Snapshots/Restore.antt =====
-- Proofs about restoring a snapshot (server/src/snapshots/routes.ts).
use bartleby.Prelude.{
  ℕ, ◌<◌, ◌≤◌, String, Bool, true, false, ◌≡◌, refl, ◌==◌, Option, some, List, [], ◌∷◌, arith,
  eq_self, All, All-append, All-map_of, length, contains, Bool-cases, inl, inr, ◌⊎◌,
}
use bartleby.Http.{ok, ◌>>=◌}
use bartleby.Sql.{OrderBy, select, delete, find, any, insert as append}
use bartleby.Sql.Rows.{keyed, Distinct, Distinct-insert}
use bartleby.Db.{Db, NoteRow, SnapshotRow}
use bartleby.Db.Notes
use bartleby.Db.Notes.{is_live, note_id}
use bartleby.Db.Snapshots
use bartleby.Db.Snapshots.{snapshot_id, is_auto_of, surplus}
use bartleby.Db.Snapshots.Prune.{IsPruned, prune_auto_snapshots-IsPruned}
use bartleby.Snapshots.{require_live, require_snapshot, restore_snapshot, auto_snapshot}

abbrev is_gone : List String → SnapshotRow → Bool
is_gone gone s = contains s.id gone

-- The last row of a table is found by its id where it is not deleted.
find_last :
    (gone : List String) (rows : List SnapshotRow) (row : SnapshotRow)
    → any (keyed snapshot_id row.id) rows ≡ false
    → contains row.id gone ≡ false
    → find (keyed snapshot_id row.id) (delete (is_gone gone) (append row rows)) ≡ some row
find_last gone [] row new stays = rw (stays, eq_self row.id)
find_last gone (r ∷ rows) row new stays = ground (arith, find_last gone rows row)

module _ (id : String) (gone : List String) (row : SnapshotRow) where
  -- The row at the end is one of the deleted ones, where it is deleted.
  last_gone :
      (P : SnapshotRow → Type 0) (rows : List SnapshotRow)
      → is_auto_of id row ≡ true
      → contains row.id gone ≡ true
      → All P (select (is_gone gone) (select (is_auto_of id) (append row rows)))
      → P row
  last_gone P [] auto g h = ground arith
  last_gone P (r ∷ rows) auto g h = ground (arith, last_gone P rows auto g)

  -- A kept row is not deleted, and is older or has the id of the last row.
  abbrev IsOlder : SnapshotRow → Type 0
  IsOlder t = (contains t.id gone ≡ false) × ((t.created_at < row.created_at) ⊎ (t.id ≡ row.id))

  -- Were the last row deleted, no auto-snapshot of the note would be left.
  none_left :
      (rows kept : List SnapshotRow)
      → All IsOlder kept
      → All
          (λ t.
            All
              (λ s. s.created_at ≤ t.created_at)
              (select (is_gone gone) (select (is_auto_of id) (append row rows))))
          kept
      → is_auto_of id row ≡ true
      → contains row.id gone ≡ true
      → kept ≡ []
  none_left rows [] a b auto g = refl
  none_left rows (t ∷ ts) a b auto g =
      let newer = last_gone (λ s. s.created_at ≤ t.created_at) rows auto g b.0 in
      elim a.0.1 [
        | inl older ↦ ground (arith, older, newer)
        | inr same ↦ ground (arith, a.0.0, same)
      ]

  some_auto :
      (rows : List SnapshotRow)
      → is_auto_of id row ≡ true
      → 1 ≤ length (select (is_auto_of id) (append row rows))
  some_auto [] auto = ground arith
  some_auto (r ∷ rows) auto = ground (arith, some_auto rows auto)

  kept-IsOlder :
      (rows : List SnapshotRow)
      → All
          (λ t. (is_auto_of id t ≡ false) ⊎ (t.created_at < row.created_at) ⊎ (t.id ≡ row.id))
          rows
      → All IsOlder (select (is_auto_of id) (delete (is_gone gone) rows))
  kept-IsOlder [] h = tt
  kept-IsOlder (r ∷ rows) h = ground (arith, kept-IsOlder rows h.1)

  -- The newest auto-snapshot survives retention.
  pub survives :
      (keep : ℕ) (rows : List SnapshotRow)
      → 1 ≤ keep
      → is_auto_of id row ≡ true
      → All (λ t. (is_auto_of id t ≡ false) ⊎ (t.created_at < row.created_at)) rows
      → IsPruned id keep gone (append row rows) (delete (is_gone gone) (append row rows))
      → contains row.id gone ≡ false
  survives keep rows some_kept auto older pruned = elim (Bool-cases (contains row.id gone)) [
    | inr stays ↦ stays
    | inl g ↦
        let many = some_auto rows auto in
        let left =
          none_left rows _
            (kept-IsOlder (append row rows) (
              All-append _ rows (row ∷ [])
                (All-map_of _ _ (λ t h. elim h [ inl a ↦ inl a | inr b ↦ inr (inl b) ]) rows older)
                (inr (inr refl), tt)))
            pruned.newest auto g in
        let empty_left : length (select (is_auto_of id) (delete (is_gone gone) (append row rows)))
            ≡ 0 =
          rw left refl in
        ground (arith, empty_left, many, pruned.count, some_kept)
  ]

any_found :
    (k : String) (notes : List NoteRow) (n : NoteRow)
    → find (keyed note_id k) notes ≡ some n
    → any (keyed note_id k) notes ≡ true
any_found k [] n e = ground arith
any_found k (m ∷ ms) n e = ground (arith, any_found k ms n)

-- Restoring a snapshot of a live note hands that snapshot's state to the live document and first
-- stores the document's state as a new auto-snapshot, which retention leaves. Conditions: snapshot
-- ids are distinct, the new id is not in use, the document can be read, retention keeps at least
-- one, and the clock is past every snapshot.
pub restore_snapshot-Undoable :
    (order : OrderBy) (read : String → Option (List ℕ)) (retention : ℕ)
    (note_id snap_id id : String) (now : ℕ) (note : NoteRow) (target : SnapshotRow)
    (encoded : List ℕ) (db : Db)
    → 1 ≤ retention
    → Distinct snapshot_id db.snapshots
    → Notes.find_by_id note_id db ≡ some note
    → is_live note ≡ true
    → Snapshots.find_by_id snap_id db ≡ some target
    → target.note_id ≡ note_id
    → read note_id ≡ some encoded
    → any (keyed snapshot_id id) db.snapshots ≡ false
    → All (λ s. s.created_at < now) db.snapshots
    → (db' : Db) × (restore_snapshot order read retention note_id snap_id id now db
        ≡ (ok (note_id, target.yjs_state), db'))
      × (Snapshots.find_by_id id db' ≡ some (auto_snapshot id note_id encoded now))
unfolding restore_snapshot require_live require_snapshot ◌>>=◌ Snapshots.insert Notes.find_by_id
    Snapshots.find_by_id Snapshots.prune_auto_snapshots
restore_snapshot-Undoable order read retention note_id snap_id id now note target encoded db
      some_kept d found live found_snap own readable new past =
    let row = auto_snapshot id note_id encoded now in
    let db1 : Db = record db { snapshots = append row db.snapshots } in
    let same : (target.note_id == note_id) ≡ true = rw own (eq_self note_id) in
    let is_auto : is_auto_of note_id row ≡ true = rw (eq_self note_id) refl in
    let pruned =
      prune_auto_snapshots-IsPruned order note_id retention db1
        (Distinct-insert snapshot_id row db.snapshots new d) in
    (
      (Snapshots.prune_auto_snapshots order note_id retention db1).1,
      rw
          (
            found,
            restore_snapshot,
            live,
            found_snap,
            same,
            readable,
            new,
            any_found note_id db.notes note found,
          )
          refl,
      find_last _ db.snapshots row new (
          survives note_id _ row retention db.snapshots some_kept is_auto
            (All-map_of _ _ (λ t h. inr h) db.snapshots past) pruned),
    )
