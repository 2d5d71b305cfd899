-- ===== src/Tests/Database.antt =====
-- The theorems on the database and its handlers, at the small database.
use bartleby.Prelude.{ℕ, false, true, ◌≡◌, refl, none, some, List, [], ◌∷◌, arith}
use Prim.Native.String
use bartleby.Json.{str, obj, property, no_properties}
use bartleby.Http.{Result, ok, err, not_found, ◌>>=◌}
use bartleby.Sql.Rows.{Distinct, Distinct-insert}
use bartleby.Sql.Sort.{insertion}
use bartleby.Db.Notes.{is_live}
use bartleby.Db.{Db, CommentRow, empty}
use bartleby.Db.Mentions
use bartleby.Db.Notes
use bartleby.Db.Notes.{note_id, is_live}
use bartleby.Db.Snapshots
use bartleby.Db.Snapshots.{snapshot_id, surplus, prune_auto_snapshots}
use bartleby.Db.Snapshots.Prune.{IsPruned, prune_auto_snapshots-IsPruned}
use bartleby.Db.Comments
use bartleby.Db.Comments.Thread.{IsThreaded, delete-IsThreaded}
use bartleby.Notes.{SessionUser, get_note, delete_note, restore_note}
use bartleby.Notes.Lifecycle.{
  restore_note-delete_note, get_note-delete_note, IsErased, delete_note-IsErased,
}
use bartleby.Notes.Purge.{run_once, find_by_id-run_once, run_once-IsPurged, IsPurged}
use bartleby.Comments.{create_reply}
use bartleby.Comments.Replies.{create_reply-IsReply, IsReply}
use bartleby.Mentions.Inbox.{read_mention}
use bartleby.Mentions.Inbox.Scope.{of_others, read_mention-of_others}
use bartleby.Snapshots.{restore_snapshot, auto_snapshot}
use bartleby.Snapshots.Restore.{restore_snapshot-Undoable}
use bartleby.Snapshots.{tick_auto_snapshots}
use bartleby.Server.{
  Deps, Call, post_note, post_comment, purge_tick, snapshot_tick, post_import, store_document,
}
use bartleby.Import.{file_part}
use bartleby.Import.Document.{plain, element, Nodes}
use bartleby.Derived.{Document}
use bartleby.Tests.Data.{trip, library, library-IsValid, remark, snapshot}

abbrev deps : Deps
deps = record {
  order = insertion;
  read = λ id. some (7 ∷ []);
  resolve_anchor = λ id anchor. some "packed";
  parse_yaml = λ s. none;
  parse_json = λ s. none;
  to_lower_case = λ s. s;
  parse_body = λ s. some (element (plain "doc" "") Nodes.empty []);
  seed = λ id doc. true;
  first_byte = λ s. 0;
  retry_delays_ms = 1 ∷ [];
  trash_retention_ms = 1000;
  auto_snapshot_retention = 2;
}

abbrev alice_session : SessionUser
alice_session = record {
  id = "u-alice";
  email = "alice@example.com";
  display_name = "Alice";
  color = "#e6194b";
  created_at = 0;
}

abbrev page : Document
page = record { markdown = some "see [[Packing list]] #list"; gone = λ position. none }

abbrev calls : List Call
calls =
    post_note (some (obj (property "title" (str "Packing list") no_properties))) alice_session "n-1"
      5
    ∷ post_comment "n-1" (some (obj (property "body" (str "first") no_properties))) "u-alice" "c-9"
        (λ e. e) 6
    ∷ snapshot_tick (λ id. String.◌++◌ "s-" id) 7
    ∷ post_import (some (file_part "Tent.md" "two poles" ∷ [])) alice_session (λ place. "n-2")
        (λ place. 8)
    ∷ store_document "n-1" page (λ email. email) 8
    ∷ purge_tick 2000
    ∷ []

ids-Distinct : Distinct snapshot_id (library none).snapshots
ids-Distinct =
    Distinct-insert snapshot_id (snapshot "s-3" none 23)
      (snapshot "s-1" none 21 ∷ snapshot "s-2" (some "draft") 22 ∷ []) refl
      (Distinct-insert snapshot_id (snapshot "s-2" (some "draft") 22) (snapshot "s-1" none 21 ∷ [])
        refl (tt, tt))

prune_auto_snapshots-IsPruned_example :
    IsPruned "n-trip" 1
      (surplus insertion "n-trip" 1 (library none).snapshots)
      (library none).snapshots
      (prune_auto_snapshots insertion "n-trip" 1 (library none)).1.snapshots
prune_auto_snapshots-IsPruned_example =
    prune_auto_snapshots-IsPruned insertion "n-trip" 1 (library none) ids-Distinct

restore_snapshot-Undoable_example :
    (db' : Db) × (restore_snapshot insertion
        (λ id. some (7 ∷ []))
        2
        "n-trip"
        "s-2"
        "s-9"
        40
        (library none)
      ≡ (ok ("n-trip", 22 ∷ []), db'))
    × (Snapshots.find_by_id "s-9" db' ≡ some (auto_snapshot "s-9" "n-trip" (7 ∷ []) 40))
unfolding Snapshots.find_by_id Notes.find_by_id
restore_snapshot-Undoable_example =
    restore_snapshot-Undoable insertion (λ id. some (7 ∷ [])) 2 "n-trip" "s-2" "s-9" 40 trip
      (snapshot "s-2" (some "draft") 22) (7 ∷ []) (library none) (omega arith) ids-Distinct refl
      refl refl refl refl refl (omega arith, (omega arith, (omega arith, tt)))

restore_note-delete_note_example :
    (db' : Db) × (delete_note "n-trip" false 50 (library none) ≡ (ok tt, db'))
    × (restore_note "n-trip" db' ≡ (ok tt, library none))
unfolding Notes.find_by_id
restore_note-delete_note_example =
    restore_note-delete_note "n-trip" 50 trip (library none) (library-IsValid none) refl refl

get_note-delete_note_example : (get_note insertion "n-trip" (library (some 50))).0 ≡ err not_found
unfolding delete_note ◌>>=◌ Notes.find_by_id Notes.soft_delete
get_note-delete_note_example =
    get_note-delete_note insertion "n-trip" "n-trip" 50 (library none) (library (some 50)) refl

abbrev erased : Db
erased = record empty { users = (library none).users; documents = (library none).documents }

delete_note-IsErased_example : IsErased "n-trip" (library (some 50)) erased
unfolding delete_note ◌>>=◌ Notes.find_by_id Notes.hard_delete
delete_note-IsErased_example =
    delete_note-IsErased "n-trip" 60 (library (some 50)) erased (library-IsValid (some 50)) refl

find_by_id-run_once_example :
    Notes.find_by_id "n-trip" (run_once 1000 1051 (library (some 50))).1 ≡ none
unfolding Notes.find_by_id
find_by_id-run_once_example =
    find_by_id-run_once 1000 1051 "n-trip" (record trip { trashed_at = some 50 })
      (library (some 50)) (tt, tt) refl

run_once-IsPurged_example :
    IsPurged 1000 1051 (library (some 50)) (run_once 1000 1051 (library (some 50)))
run_once-IsPurged_example = run_once-IsPurged 1000 1051 (library (some 50))

delete-IsThreaded_example : IsThreaded [] (Comments.delete "c-1" (library none)).comments
delete-IsThreaded_example = delete-IsThreaded "c-1" (library none) (refl, (refl, tt))

abbrev answered : Result CommentRow × Db
answered =
    create_reply (λ s. "bob@example.com" ∷ []) (λ e. "m-2") "c-1"
      (some (obj (property "body" (str "a tent") no_properties))) "u-alice" "c-3" 31 (library none)

abbrev answer : CommentRow
answer = record remark {
  id = "c-3";
  author_id = "u-alice";
  parent_comment_id = some "c-1";
  original_quote = "";
  body = "a tent";
  created_at = 31;
  resolved_at = none;
  is_orphaned = false;
}

create_reply-IsReply_example :
    IsReply "c-1"
      (some (obj (property "body" (str "a tent") no_properties)))
      "u-alice"
      "c-3"
      31
      answer
      (library none)
      answered.1
unfolding create_reply ◌>>=◌ Comments.find_by_id Comments.insert Mentions.insert
    bartleby.Json.parse_json_body bartleby.Json.get_field bartleby.Json.as_string bartleby.Text.trim
    bartleby.Db.Users.find_by_email
create_reply-IsReply_example =
    create_reply-IsReply (λ s. "bob@example.com" ∷ []) (λ e. "m-2") "c-1"
      (some (obj (property "body" (str "a tent") no_properties))) "u-alice" "c-3" 31 (library none)
      answered.1 answer (refl, (refl, tt)) refl

read_mention-of_others_example :
    of_others "u-bob" (read_mention "m-1" "u-bob" 60 (library none)).1.mentions ≡ []
read_mention-of_others_example = read_mention-of_others "m-1" "u-bob" 60 (library none) (tt, tt)

abbrev unsaved : Db
unsaved = record (library none) { snapshots = [] }

abbrev ticked : Result (ℕ × ℕ) × Db
ticked = tick_auto_snapshots insertion (λ id. some (7 ∷ [])) 2 50 (λ id. "s-9") unsaved
