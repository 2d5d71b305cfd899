-- ===== src/Derived/Resolver.antt =====
-- Proofs about the title resolver of server/src/derived/hook.ts.
use bartleby.Prelude.{String, ◌≡◌, ◌↔◌, refl, sym, ◌∙◌, some, List, [], ◌∷◌, map, arith, All}
use bartleby.Sql.{OrderBy}
use bartleby.Db.{Db}
use bartleby.Db.Titles.{TitleResolution}
use bartleby.Db.Titles.Holder.{HasOnly, AllOf, resolve_title-AllOf}
use bartleby.Db.Tags.{unique}
use bartleby.Db.Tags.Unique.{unique_single, unique-nil}
use bartleby.Derived.{title_resolver, only}

abbrev id_of : TitleResolution → String
id_of m = m.note_id

only_cons : (j id : String) (us : List String) → (only (j ∷ us) ≡ some id) ↔ ((us ≡ []) × (j ≡ id))
only_cons j id [] = (λ e. (refl, cc), λ h. cc)
only_cons j id (u ∷ us) = (λ e. cc, λ h. cc)

All_ids :
    (j id : String) (ms : List TitleResolution)
    → j ≡ id
    → All (λ i. i ≡ j) (map id_of ms) ↔ All (λ m. m.note_id ≡ id) ms
All_ids j id [] e = (λ h. tt, λ h. tt)
All_ids j id (m ∷ ms) e =
    (λ h. (h.0 ∙ e, (All_ids j id ms e).0 h.1), λ h. (h.0 ∙ sym e, (All_ids j id ms e).1 h.1))

only-unique :
    (id : String) (ms : List TitleResolution)
    → (only (unique (map id_of ms)) ≡ some id) ↔ AllOf id ms
only-unique id [] = rw unique-nil (λ e. cc, λ h. ground arith)
only-unique id (m ∷ ms) =
    let (rest, shape, single) = unique_single m.note_id (map id_of ms) in
    rw shape (
      λ e.
          let h = (only_cons m.note_id id rest).0 e in
          (omega arith, (h.1, (All_ids m.note_id id ms h.1).0 (single.0 h.0))),
      λ h.
          (only_cons m.note_id id rest).1
            (single.1 ((All_ids m.note_id id ms h.1.0).1 h.1.1), h.1.0),
    )

-- The resolver of the derived state gives a note for a title just where some note has had that
-- title and every row of the title history with it is of this note: a title that two notes have had
-- stands for none.
pub title_resolver-HasOnly :
    (order : OrderBy) (title id : String) (db : Db)
    → (title_resolver order db title ≡ some id) ↔ HasOnly title id db.note_titles_history
unfolding title_resolver
title_resolver-HasOnly order title id db = (
  λ e. (resolve_title-AllOf order title id db).0 ((only-unique id _).0 e),
  λ h. (only-unique id _).1 ((resolve_title-AllOf order title id db).1 h),
)
