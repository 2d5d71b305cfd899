-- ===== src/Notes/Links/Unique.antt =====
-- Proofs about GET /notes/resolve (server/src/notes/routes.ts).
use bartleby.Prelude.{
  String, false, ◌≡◌, ◌≢◌, ◌≤◌, ◌↔◌, ◌&&◌, not, ◌==◌, refl, sym, ◌∙◌, ap, Option, none, some, List,
  [], ◌∷◌, arith, eq_iff, eq_self, All, length, Bool-cases, inl, inr,
}
use bartleby.Http.{ok, ◌>>=◌}
use bartleby.Text.{is_empty}
use bartleby.Sql.{OrderBy}
use bartleby.Auth.Map.{Map, get, set}
use bartleby.Db.{Db}
use bartleby.Db.Titles.{TitleResolution}
use bartleby.Db.Titles.Holder.{HasOnly, AllOf, resolve_title-AllOf}
use bartleby.Notes.Links.{one, keep, collapse, ids_of, answer, resolve_title}

length-set :
    (k : String) (m : TitleResolution) (by_note : Map TitleResolution)
    → length by_note ≤ length (set k m by_note)
unfolding set
length-set k m [] = omega arith
length-set k m ((j, n) ∷ by_note) = ground (arith, length-set k m by_note)

length-keep :
    (m : TitleResolution) (found : Option TitleResolution) (by_note : Map TitleResolution)
    → length by_note ≤ length (keep m found by_note)
unfolding keep
length-keep m none by_note = length-set m.note_id m by_note
length-keep m (some prev) by_note = ground (arith, length-set m.note_id m by_note)

length-collapse :
    (ms : List TitleResolution) (by_note : Map TitleResolution)
    → length by_note ≤ length (collapse ms by_note)
unfolding collapse
length-collapse [] by_note = omega arith
length-collapse (m ∷ ms) by_note =
    let by_note' = keep m (get m.note_id by_note) by_note in
    omega (arith, length-keep m (get m.note_id by_note) by_note, length-collapse ms by_note')

length-ids_of : (by_note : Map TitleResolution) → length (ids_of by_note) ≡ length by_note
length-ids_of [] = refl
length-ids_of ((k, m) ∷ by_note) = omega (arith, length-ids_of by_note)

-- A map with one entry, whose key is the note's id.
abbrev single : String → TitleResolution → Map TitleResolution
single id p = (id, p) ∷ []

keep-single :
    (id : String) (m p : TitleResolution)
    → p.note_id ≡ id
    → m.note_id ≡ id
    → (q : TitleResolution) × (q.note_id ≡ id)
      × (keep m (get m.note_id (single id p)) (single id p) ≡ single id q)
unfolding keep get set
keep-single id m p e f =
    rw (f, eq_self id)
      (elim (Bool-cases (not p.is_current && m.is_current)) [
        | inl newer ↦ (m, f, rw (newer, f, eq_self id) refl)
        | inr older ↦ (p, e, rw older refl)
      ])

-- A second note stays beside the first.
two_notes :
    (id j : String) (m p : TitleResolution) (ms : List TitleResolution)
    → (m.note_id == id) ≡ false
    → ids_of (collapse ms (keep m (get m.note_id (single id p)) (single id p))) ≢ j ∷ []
unfolding keep get set
two_notes id j m p ms other e =
    let differ : (id == m.note_id) ≡ false =
      ground (arith, eq_iff m.note_id id, eq_iff id m.note_id) in
    let both : Map TitleResolution = (id, p) ∷ (m.note_id, m) ∷ [] in
    let e' : ids_of (collapse ms both) ≡ j ∷ [] = rw (differ, differ) at e in
    let one_left : length (collapse ms both) ≡ 1 =
      sym (length-ids_of (collapse ms both)) ∙ ap (λ ids. length ids) e' in
    omega (arith, length-collapse ms both, one_left)

collapse-single :
    (id j : String) (p : TitleResolution) (ms : List TitleResolution)
    → p.note_id ≡ id
    → (ids_of (collapse ms (single id p)) ≡ j ∷ []) ↔ ((id ≡ j) × All (λ m. m.note_id ≡ j) ms)
unfolding collapse
collapse-single id j p [] e = (λ h. (cc, tt), λ h. cc)
collapse-single id j p (m ∷ ms) e = elim (Bool-cases (m.note_id == id)) [
  | inl same ↦
      let f = (eq_iff m.note_id id).0 same in
      let (q, g, kept) = keep-single id m p e f in
      rw kept (
        λ h. let k = (collapse-single id j q ms g).0 h in (k.0, (f ∙ k.0, k.1)),
        λ h. (collapse-single id j q ms g).1 (h.0, h.1.1),
      )
  | inr other ↦ (
    λ h. absurd (two_notes id j m p ms other h),
    λ h. ground (arith, eq_iff m.note_id id, h.0, h.1.0),
  )
]

answer-one :
    (ids : List String) (id : String) (db : Db)
    → ((answer ids db).0 ≡ ok (one id)) ↔ (ids ≡ id ∷ [])
unfolding answer ◌>>=◌
answer-one [] id db = (λ e. cc, λ e. cc)
answer-one (j ∷ []) id db = (λ e. cc, λ e. cc)
answer-one (j ∷ k ∷ ids) id db = (λ e. cc, λ e. cc)

answer-AllOf :
    (ms : List TitleResolution) (id : String) (db : Db)
    → ((answer (ids_of (collapse ms [])) db).0 ≡ ok (one id)) ↔ AllOf id ms
unfolding collapse keep get set
answer-AllOf [] id db = (λ e. cc ((answer-one [] id db).0 e), λ h. ground arith)
answer-AllOf (m ∷ ms) id db =
    let ids = ids_of (collapse ms (single m.note_id m)) in
    let (to, from) = collapse-single m.note_id id m ms refl in
    (λ e. (omega arith, to ((answer-one ids id db).0 e)), λ h. (answer-one ids id db).1 (from h.1))

-- For a title that is not empty, GET /notes/resolve answers with one note just where some note has
-- had that title and every row of the title history with it is of this note.
pub resolve_title-HasOnly :
    (order : OrderBy) (title id : String) (db : Db)
    → is_empty title ≡ false
    → ((resolve_title order (some title) db).0 ≡ ok (one id))
      ↔ HasOnly title id db.note_titles_history
unfolding resolve_title ◌>>=◌
resolve_title-HasOnly order title id db given = rw given (
  λ e. (resolve_title-AllOf order title id db).0 ((answer-AllOf _ id db).0 e),
  λ h. (answer-AllOf _ id db).1 ((resolve_title-AllOf order title id db).1 h),
)
