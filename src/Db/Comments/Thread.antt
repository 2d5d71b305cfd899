-- ===== src/Db/Comments/Thread.antt =====
-- Proofs about replies in server/src/db/repositories/comments.ts.
use bartleby.Prelude.{
  String, true, false, ◌≡◌, ◌==◌, refl, ◌||◌, Option, none, some, List, [], ◌∷◌, ◌⊎◌, inl, inr,
  arith, contains, Bool-cases, All,
}
use bartleby.Sql.{insert as append}
use bartleby.Db.{Db, CommentRow}
use bartleby.Db.Comments.{has_parent, lacks_parent, comment_ids, without_thread, delete}

-- Each comment's parent is one of `seen` or stands before it.
abbrev pub IsThreaded : List String → List CommentRow → Type 0
IsThreaded seen [] = Unit
IsThreaded seen (c ∷ cs) =
    (lacks_parent c.parent_comment_id seen ≡ false) × IsThreaded (c.id ∷ seen) cs

-- Every comment seen before is deleted or left.
abbrev Splits : List String → List String → List String → Type 0
Splits seen gone left =
    (k : String) → contains k seen ≡ true → (contains k gone ≡ true) ⊎ (contains k left ≡ true)

Splits-left :
    (j : String) (seen gone left : List String)
    → Splits seen gone left
    → Splits (j ∷ seen) gone (j ∷ left)
Splits-left j seen gone left split k e = elim (Bool-cases (j == k)) [
  | inl same ↦ inr (rw same)
  | inr other ↦ elim (split k (ground arith)) [ inl g ↦ inl g | inr l ↦ inr (rw (other, l)) ]
]

Splits-gone :
    (j : String) (seen gone left : List String)
    → Splits seen gone left
    → Splits (j ∷ seen) (j ∷ gone) left
Splits-gone j seen gone left split k e = elim (Bool-cases (j == k)) [
  | inl same ↦ inl (rw same)
  | inr other ↦ elim (split k (ground arith)) [ inl g ↦ inl (rw (other, g)) | inr l ↦ inr l ]
]

parent_left :
    (seen gone left : List String) (o : Option String)
    → Splits seen gone left
    → lacks_parent o seen ≡ false
    → has_parent o gone ≡ false
    → lacks_parent o left ≡ false
parent_left seen gone left none split h g = refl
parent_left seen gone left (some p) split h g = elim (split p (ground arith)) [
  | inl e ↦ ground arith
  | inr l ↦ ground arith
]

without_thread-IsThreaded :
    (gone seen left : List String) (cs : List CommentRow)
    → Splits seen gone left
    → IsThreaded seen cs
    → IsThreaded left (without_thread gone cs)
without_thread-IsThreaded gone seen left [] split h = tt
without_thread-IsThreaded gone seen left (c ∷ cs) split h =
    elim (Bool-cases (contains c.id gone || has_parent c.parent_comment_id gone)) [
      | inl out ↦ rw out (
          without_thread-IsThreaded (c.id ∷ gone) (c.id ∷ seen) left cs
            (Splits-gone c.id seen gone left split) h.1)
      | inr stays ↦ rw stays (
        parent_left seen gone left c.parent_comment_id split h.0 (ground arith),
        without_thread-IsThreaded gone (c.id ∷ seen) (c.id ∷ left) cs
            (Splits-left c.id seen gone left split) h.1,
      )
    ]

-- If the parent of every reply is stored and stands before it, then the same holds after deleting a
-- comment, which takes its replies, and theirs, with it.
pub delete-IsThreaded :
    (id : String) (db : Db) → IsThreaded [] db.comments → IsThreaded [] (delete id db).comments
unfolding delete
delete-IsThreaded id db h =
    without_thread-IsThreaded (id ∷ []) [] [] db.comments (λ k e. ground arith) h

pub without_thread-All :
    (P : CommentRow → Type 0) (gone : List String) (cs : List CommentRow)
    → All P cs
    → All P (without_thread gone cs)
without_thread-All P gone [] h = tt
without_thread-All P gone (c ∷ cs) h =
    ground (arith, without_thread-All P gone cs h.1, without_thread-All P (c.id ∷ gone) cs h.1)

-- Where a parent must be for a reply at the end of the table.
abbrev IsBefore : Option String → List String → List CommentRow → Type 0
IsBefore none seen cs = Unit
IsBefore (some p) seen cs = (contains p seen ≡ true) ⊎ (contains p (comment_ids cs) ≡ true)

IsBefore-next :
    (o : Option String) (seen : List String) (c : CommentRow) (cs : List CommentRow)
    → IsBefore o seen (c ∷ cs)
    → IsBefore o (c.id ∷ seen) cs
IsBefore-next none seen c cs h = tt
IsBefore-next (some p) seen c cs (inl e) = inl (ground arith)
IsBefore-next (some p) seen c cs (inr e) = elim (Bool-cases (c.id == p)) [
  | inl same ↦ inl (rw same)
  | inr other ↦ inr (ground arith)
]

IsBefore-seen :
    (o : Option String) (seen : List String) → IsBefore o seen [] → lacks_parent o seen ≡ false
IsBefore-seen none seen h = refl
IsBefore-seen (some p) seen (inl e) = ground arith
IsBefore-seen (some p) seen (inr e) = ground arith

append-IsThreaded :
    (seen : List String) (cs : List CommentRow) (c : CommentRow)
    → IsThreaded seen cs
    → IsBefore c.parent_comment_id seen cs
    → IsThreaded seen (append c cs)
append-IsThreaded seen [] c h before = (IsBefore-seen c.parent_comment_id seen before, tt)
append-IsThreaded seen (d ∷ ds) c h before = (
  h.0,
  append-IsThreaded (d.id ∷ seen) ds c h.1 (IsBefore-next c.parent_comment_id seen d ds before),
)

-- A database whose replies all have their parent.
abbrev pub HasParents : Db → Type 0
HasParents db = IsThreaded [] db.comments

-- A row is added whose parent, if it has one, is stored.
pub append-HasParents :
    (p : String) (c : CommentRow) (db : Db)
    → c.parent_comment_id ≡ some p
    → contains p (comment_ids db.comments) ≡ true
    → HasParents db
    → IsThreaded [] (append c db.comments)
append-HasParents p c db named stored h =
    append-IsThreaded [] db.comments c h (rw named (inr stored))
