-- ===== src/Db/Comments/Integrity.antt =====
-- Lemmas on the writes of server/src/db/repositories/comments.ts and a valid database.
use bartleby.Prelude.{ℕ, String, Bool, [], ◌∷◌, arith, Bool-cases, All-append, inl, inr}
use bartleby.Http.Keeps.{Keeps}
use bartleby.Sql.{insert as append}
use bartleby.Sql.Rows.{keyed, All-update}
use bartleby.Db.{Db, CommentRow}
use bartleby.Db.Integrity.{IsValid}
use bartleby.Db.Integrity.Tables.{with_comments}
use bartleby.Db.Integrity.Writes.{IsPresent-of_any}
use bartleby.Db.Comments.{comment_id, refused, insert, resolve, reopen, set_orphaned, delete}
use bartleby.Db.Comments.Thread.{without_thread-All}

pub Comments_insert-IsValid : (c : CommentRow) → Keeps IsValid (insert c)
unfolding insert
Comments_insert-IsValid c = record {
  after = λ db v. elim (Bool-cases (refused c db)) [
    | inl stop ↦ rw stop v
    | inr fine ↦ rw fine (
        with_comments db v (append c db.comments) (
          All-append _ db.comments (c ∷ []) v.comments
            (IsPresent-of_any c.note_id db.notes (ground arith), tt)))
  ];
}

pub resolve-IsValid : (id : String) (at : ℕ) (db : Db) → IsValid db → IsValid (resolve id at db)
unfolding resolve
resolve-IsValid id at db v =
    with_comments db v _ (All-update _ (keyed comment_id id) _ (λ c h. h) db.comments v.comments)

pub reopen-IsValid : (id : String) (db : Db) → IsValid db → IsValid (reopen id db)
unfolding reopen
reopen-IsValid id db v =
    with_comments db v _ (All-update _ (keyed comment_id id) _ (λ c h. h) db.comments v.comments)

pub set_orphaned-IsValid :
    (id : String) (orphaned : Bool) (db : Db) → IsValid db → IsValid (set_orphaned id orphaned db)
unfolding set_orphaned
set_orphaned-IsValid id orphaned db v =
    with_comments db v _ (All-update _ (keyed comment_id id) _ (λ c h. h) db.comments v.comments)

pub delete-IsValid : (id : String) (db : Db) → IsValid db → IsValid (delete id db)
unfolding delete
delete-IsValid id db v =
    with_comments db v _ (without_thread-All _ (id ∷ []) db.comments v.comments)
