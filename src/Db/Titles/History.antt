-- ===== src/Db/Titles/History.antt =====
-- The open rows of the title history after `append`.
use bartleby.Prelude.{ℕ, String, ◌≡◌, ◌≢◌, refl, none, List, [], ◌∷◌, arith, eq_iff, eq_self}
use bartleby.Sql.{select, update}
use bartleby.Sql.Rows.{select-append}
use bartleby.Http.{ok}
use bartleby.Db.{Db, NoteTitleHistoryRow}
use bartleby.Db.Titles.{is_open_for, close, append}

abbrev pub Rows : Type 0
Rows = List NoteTitleHistoryRow

pub select_closed :
    (id : String) (at : ℕ) (rows : Rows)
    → select (is_open_for id) (update (is_open_for id) (close at) rows) ≡ []
select_closed id at [] = refl
select_closed id at (r ∷ rs) = ground (arith, select_closed id at rs)

pub select_others :
    (id j : String) (at : ℕ) (rows : Rows)
    → id ≢ j
    → select (is_open_for j) (update (is_open_for id) (close at) rows) ≡ select (is_open_for j) rows
select_others id j at [] ne = refl
select_others id j at (r ∷ rs) ne =
    ground (arith, eq_iff r.note_id id, eq_iff r.note_id j, select_others id j at rs)

-- The rows that `append` adds to and closes.
pub append-select_self :
    (id title : String) (at : ℕ) (db db' : Db)
    → append id title at db ≡ (ok tt, db')
    → select (is_open_for id) db'.note_titles_history
      ≡ record { note_id = id; title = title; valid_from = at; valid_to = none } ∷ []
unfolding append
append-select_self id title at db db' e = ground (
  arith,
  eq_self id,
  select_closed id at db.note_titles_history,
  select-append (is_open_for id) (update (is_open_for id) (close at) db.note_titles_history)
      (record { note_id = id; title = title; valid_from = at; valid_to = none } ∷ []),
)
