-- ===== src/Db/Backlinks/Integrity.antt =====
-- Lemmas on the writes of server/src/db/repositories/backlinks.ts and a valid database.
use bartleby.Prelude.{
  String, false, ◌≡◌, List, [], ◌∷◌, ◌++◌, arith, Bool-cases, All, All-append, inl, inr,
}
use bartleby.Http.Keeps.{Keeps}
use bartleby.Sql.{delete}
use bartleby.Sql.Rows.{All-delete}
use bartleby.Db.{NoteRow}
use bartleby.Db.Integrity.{IsValid, IsPresent}
use bartleby.Db.Integrity.Tables.{with_backlinks}
use bartleby.Db.Integrity.Writes.{IsPresent-of_any}
use bartleby.Db.Backlinks.{BacklinkInput, link_rows, is_from, dangles, replace_for_source}

sources :
    (notes : List NoteRow) (source : String) (ls : List BacklinkInput)
    → dangles notes source ls ≡ false
    → All (λ r. IsPresent notes r.source_note_id) (link_rows source ls)
sources notes source [] e = tt
sources notes source (l ∷ ls) e =
    (IsPresent-of_any source notes (ground arith), sources notes source ls (ground arith))

targets :
    (notes : List NoteRow) (source : String) (ls : List BacklinkInput)
    → dangles notes source ls ≡ false
    → All (λ r. IsPresent notes r.target_note_id) (link_rows source ls)
targets notes source [] e = tt
targets notes source (l ∷ ls) e =
    (IsPresent-of_any l.target_note_id notes (ground arith), targets notes source ls (ground arith))

pub replace_for_source-IsValid :
    (source : String) (ls : List BacklinkInput) → Keeps IsValid (replace_for_source source ls)
unfolding replace_for_source
replace_for_source-IsValid source ls = record {
  after = λ db v. elim (Bool-cases (dangles db.notes source ls)) [
    | inl stop ↦ rw stop v
    | inr fine ↦ rw fine (
        with_backlinks db v (delete (is_from source) db.backlinks ++ link_rows source ls)
          (All-append _ (delete (is_from source) db.backlinks) _
            (All-delete _ (is_from source) db.backlinks v.sources)
            (sources db.notes source ls fine))
          (All-append _ (delete (is_from source) db.backlinks) _
            (All-delete _ (is_from source) db.backlinks v.targets)
            (targets db.notes source ls fine)))
  ];
}
