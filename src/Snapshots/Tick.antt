-- ===== src/Snapshots/Tick.antt =====
-- Proofs about one round of an auto-snapshot tick (server/src/snapshots/scheduler.ts).
use bartleby.Prelude.{
  ℕ, ◌<◌, ◌≤◌, String, Bool, true, false, not, ◌≡◌, refl, sym, ap, ◌∙◌, ◌==◌, ◌&&◌, ◌||◌, ◌⊎◌,
  Option, none, some, List, [], ◌∷◌, arith, eq_self, nat_eq, All, All-append, contains, Bool-cases,
  Option-cases, inl, inr,
}
use bartleby.Http.{ok, ◌>>=◌}
use bartleby.Http.Yields.{ok-injective}
use bartleby.Sql.{OrderBy, select, delete, any, insert as append}
use bartleby.Sql.Rows.{keyed, Distinct, Distinct-insert, Distinct-delete, All-delete}
use bartleby.Db.{Db, NoteRow, SnapshotRow}
use bartleby.Db.Notes.{note_id}
use bartleby.Db.Snapshots
use bartleby.Db.Snapshots.{snapshot_id, is_auto_of, surplus, list_by_note, prune_auto_snapshots}
use bartleby.Db.Snapshots.Prune.{IsPruned, prune_auto_snapshots-IsPruned}
use bartleby.Snapshots.{tick_note, auto_snapshot}
use bartleby.Snapshots.Restore.{survives}
use bartleby.Snapshots.Latest.{is_saved, is_unchanged-list_by_note}

abbrev pub same_state : List ℕ → List ℕ → Bool
same_state [] [] = true
same_state [] (y ∷ ys) = false
same_state (x ∷ xs) [] = false
same_state (x ∷ xs) (y ∷ ys) = nat_eq x y && same_state xs ys

same_state_refl : (xs : List ℕ) → same_state xs xs ≡ true
same_state_refl [] = refl
same_state_refl (x ∷ xs) = ground (arith, same_state_refl xs)

-- The state is the one that was read.
abbrev pub is_read : Option (List ℕ) → List ℕ → Bool
is_read none state = false
is_read (some encoded) state = same_state encoded state

-- An auto-snapshot of the note is there that was made at this time, with its document's state.
abbrev pub has_fresh : (String → Option (List ℕ)) → ℕ → NoteRow → List SnapshotRow → Bool
has_fresh read now note =
    any (λ s. is_auto_of note.id s && nat_eq s.created_at now && is_read (read note.id) s.yjs_state)

-- The auto-snapshots of a note were made before.
abbrev pub IsPast : ℕ → String → List SnapshotRow → Type 0
IsPast now id = All λ s. (is_auto_of id s ≡ false) ⊎ (s.created_at < now)

any-append :
    (q : SnapshotRow → Bool) (row : SnapshotRow) (rows : List SnapshotRow)
    → q row ≡ false
    → any q (append row rows) ≡ any q rows
any-append q row [] e = ground arith
any-append q row (r ∷ rows) e = ground (arith, any-append q row rows)

-- A test that only some rows pass.
any-select_of :
    (q r : SnapshotRow → Bool) (rows : List SnapshotRow)
    → ((s : SnapshotRow) → q s ≡ true → r s ≡ true)
    → any q (select r rows) ≡ any q rows
any-select_of q r [] h = refl
any-select_of q r (s ∷ rows) h = elim (Bool-cases (q s)) [
  | inl hit ↦ rw (h s hit, hit) refl
  | inr miss ↦ ground (arith, any-select_of q r rows h)
]

any_last :
    (q : SnapshotRow → Bool) (gone : List String) (row : SnapshotRow) (rows : List SnapshotRow)
    → q row ≡ true
    → contains row.id gone ≡ false
    → any q (delete (λ s. contains s.id gone) (append row rows)) ≡ true
any_last q gone row [] e stays = ground arith
any_last q gone row (r ∷ rows) e stays = ground (arith, any_last q gone row rows)

module _ (order : OrderBy) (note : NoteRow) (retention : ℕ) (row : SnapshotRow)
    (own : row.note_id ≡ note.id) (rows : List SnapshotRow)
    (d : Distinct snapshot_id (append row rows)) where
  abbrev gone : List String
  gone = surplus order note.id retention (append row rows)

  abbrev after : List SnapshotRow
  after = delete (λ s. contains s.id gone) (append row rows)

  pruned : (db : Db) → IsPruned note.id retention gone (append row rows) after
  unfolding Snapshots.prune_auto_snapshots
  pruned db =
      prune_auto_snapshots-IsPruned order note.id retention
        (record db { snapshots = append row rows }) d

  -- Tests on rows of other notes answer as before.
  any-after :
      (db : Db) (q : SnapshotRow → Bool)
      → ((s : SnapshotRow) → q s ≡ true → (s.note_id == note.id) ≡ false)
      → any q after ≡ any q rows
  any-after db q h =
      let r : SnapshotRow → Bool = λ s. not (is_auto_of note.id s) in
      let other : (s : SnapshotRow) → q s ≡ true → r s ≡ true = λ s e. ground (arith, h s e) in
      let row_fails : q row ≡ false = elim (Bool-cases (q row)) [
        | inl hit ↦ cc (rw own at (h row hit), eq_self note.id)
        | inr miss ↦ miss
      ] in
      sym (any-select_of q r after other)
      ∙ ap (any q) (pruned db).others
      ∙ any-select_of q r (append row rows) other
      ∙ any-append q row rows row_fails

-- A round of the loop that ended without an exception.
pub record IsRound (read : String → Option (List ℕ)) (now : ℕ) (note : NoteRow) (made : Bool)
    (db db' : Db) : Type 0 where
  pub changed : made ≡ not (is_saved note db.snapshots)
  pub distinct : Distinct snapshot_id db'.snapshots
  pub others :
      (q : SnapshotRow → Bool)
      → ((s : SnapshotRow) → q s ≡ true → (s.note_id == note.id) ≡ false)
      → any q db'.snapshots ≡ any q db.snapshots
  pub past :
      (id : String)
      → (note.id == id) ≡ false
      → IsPast now id db.snapshots
      → IsPast now id db'.snapshots
  pub fresh : made ≡ true → has_fresh read now note db'.snapshots ≡ true

module _ (order : OrderBy) (read : String → Option (List ℕ)) (retention now : ℕ)
    (new_id : String → String) (note : NoteRow) (db : Db) (some_kept : 1 ≤ retention)
    (d : Distinct snapshot_id db.snapshots) (older : IsPast now note.id db.snapshots) where
  abbrev pub row_of : List ℕ → SnapshotRow
  row_of encoded = auto_snapshot (new_id note.id) note.id encoded now

  abbrev pub pruned_db : List ℕ → Db
  pruned_db encoded =
      (prune_auto_snapshots order note.id retention
        (record db { snapshots = append (row_of encoded) db.snapshots })).1

  skipped-IsRound : is_saved note db.snapshots ≡ true → IsRound read now note false db db
  skipped-IsRound saved = record {
    changed = rw saved refl;
    distinct = d;
    others = λ q h. refl;
    past = λ id ne h. h;
    fresh = λ e. cc;
  }

  made-IsRound :
      (encoded : List ℕ)
      → read note.id ≡ some encoded
      → any (keyed snapshot_id (new_id note.id)) db.snapshots ≡ false
      → is_saved note db.snapshots ≡ false
      → IsRound read now note true db (pruned_db encoded)
  unfolding prune_auto_snapshots
  made-IsRound encoded readable new edited =
      let row = row_of encoded in
      let rows = db.snapshots in
      let d' = Distinct-insert snapshot_id row rows new d in
      let is_auto : is_auto_of note.id row ≡ true = rw (eq_self note.id) refl in
      let stays =
        survives note.id _ row retention rows some_kept is_auto older
          (pruned order note retention row refl rows d' db) in
      record {
        changed = rw edited refl;
        distinct = Distinct-delete snapshot_id _ (append row rows) d';
        others = λ q h. any-after order note retention row refl rows d' db q h;
        past = λ id ne h.
            All-delete _ _ (append row rows)
              (All-append _ rows (row ∷ []) h (inl (rw ne refl), tt));
        fresh = λ e.
            any_last _ _ row rows
              (rw (eq_self note.id, readable, same_state_refl encoded) ground arith) stays;
      }

  pub tick_note-IsRound :
      (made : Bool) (db' : Db)
      → tick_note order read retention now new_id note db ≡ (ok made, db')
      → IsRound read now note made db db'
  unfolding tick_note ◌>>=◌ Snapshots.insert
  tick_note-IsRound made db' e =
      let saved_or = is_unchanged-list_by_note order read note db in
      let round = rw saved_or at e in
      elim (Bool-cases (is_saved note db.snapshots)) [
        | inl saved ↦
            let out = rw saved at round in
            let (made_false, same) = ok-injective false made db db' out in
            rw (← made_false, ← same) (skipped-IsRound saved)
        | inr edited ↦ elim (Option-cases (read note.id)) [
          | inl unreadable ↦ cc (rw (edited, unreadable) at round)
          | inr (encoded, readable) ↦
              elim (Bool-cases (
                any (keyed snapshot_id (new_id note.id)) db.snapshots
                || not (any (keyed note_id note.id) db.notes))) [
                  | inl stop ↦ cc (rw (edited, readable, stop) at round)
                  | inr fine ↦
                      let out = rw (edited, readable, fine) at round in
                      let (made_true, same) = ok-injective true made (pruned_db encoded) db' out in
                      rw (← made_true, ← same) (made-IsRound encoded readable (ground arith) edited)
                ]
        ]
      ]
