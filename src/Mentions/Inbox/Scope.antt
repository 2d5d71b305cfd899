-- ===== src/Mentions/Inbox/Scope.antt =====
-- Proofs about POST /mentions/:id/read (server/src/mentions/routes.ts) and other users.
use bartleby.Prelude.{
  ℕ, String, true, ◌≡◌, ◌≢◌, refl, ◌==◌, not, Option, none, some, List, [], ◌∷◌, arith, eq_iff, All,
  Option-cases, Bool-cases, inl, inr,
}
use bartleby.Http.{◌>>=◌}
use bartleby.Sql.{select, update, find}
use bartleby.Sql.Rows.{keyed, Distinct}
use bartleby.Db.{Db, MentionRow}
use bartleby.Db.Mentions
use bartleby.Db.Mentions.{mention_id}
use bartleby.Mentions.Inbox.{read_mention, answer}

-- The mentions of everyone but one user.
abbrev pub of_others : String → List MentionRow → List MentionRow
of_others user = select (λ m. not (m.mentioned_user_id == user))

module _ (id user : String) (at : ℕ) where
  set_read : MentionRow → MentionRow
  set_read m = record m { read_at = some at }

  absent_same :
      (rows : List MentionRow)
      → All (λ m. m.id ≢ id) rows
      → update (keyed mention_id id) set_read rows ≡ rows
  absent_same [] h = refl
  absent_same (m ∷ ms) h = ground (arith, eq_iff m.id id, absent_same ms h.1)

  others_same :
      (rows : List MentionRow) (row : MentionRow)
      → Distinct mention_id rows
      → find (keyed mention_id id) rows ≡ some row
      → (row.mentioned_user_id == user) ≡ true
      → of_others user (update (keyed mention_id id) set_read rows) ≡ of_others user rows
  unfolding set_read
  others_same [] row d e own = refl
  others_same (m ∷ ms) row d e own = elim (Bool-cases (m.id == id)) [
    | inl same ↦
        let rest = absent_same ms (rw (← (eq_iff m.id id).0 same) d.0) in ground (arith, rest)
    | inr other ↦ ground (arith, others_same ms row d.1)
  ]

  answer_same : (o : Option MentionRow) (db : Db) → (answer o db).1 ≡ db
  unfolding answer ◌>>=◌
  answer_same none db = refl
  answer_same (some row) db = refl

  -- Where mention ids are distinct, marking a mention as read changes no mention of another user,
  -- whatever id is given and whether the call succeeds or not.
  pub read_mention-of_others :
      (db : Db)
      → Distinct mention_id db.mentions
      → of_others user (read_mention id user at db).1.mentions ≡ of_others user db.mentions
  unfolding read_mention Mentions.find_by_id Mentions.mark_read ◌>>=◌ set_read
  read_mention-of_others db d = elim (Option-cases (Mentions.find_by_id id db)) [
    | inl none_found ↦ rw (none_found) refl
    | inr (row, e) ↦ elim (Bool-cases (row.mentioned_user_id == user)) [
      | inl own ↦
          rw (e, read_mention, own)
            (rw
              (answer_same (Mentions.find_by_id id (Mentions.mark_read id at db))
                (Mentions.mark_read id at db))
              (others_same db.mentions row d e own))
      | inr other ↦ rw (e, read_mention, other) refl
    ]
  ]
