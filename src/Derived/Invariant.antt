-- ===== src/Derived/Invariant.antt =====
-- Proofs about the derived state (server/src/derived/hook.ts) and a valid database.
use bartleby.Prelude.{ℕ, String, Option, none, some, List, [], ◌∷◌}
use bartleby.Http.Keeps.{Keeps, Keeps-gets, Keeps-bind, Keeps-pure, Keeps-require}
use bartleby.Db.{NoteRow, UserRow, CommentRow}
use bartleby.Db.Integrity.{IsValid}
use bartleby.Db.Integrity.Preserves.{update_markdown_export-IsValid}
use bartleby.Db.Integrity.Rules.{valid_rules}
use bartleby.Db.Backlinks.Integrity.{replace_for_source-IsValid}
use bartleby.Db.Comments.Integrity.{set_orphaned-IsValid}
use bartleby.Derived.{
  Document, Deps, add_mention, mention_each, refresh_each, store_live, store_found, store_document,
}

module _ (deps : Deps) (name : String) (now : ℕ) where
  module _ (uuid : String → String) (author : String) where
    add_mention-IsValid :
        (email : String) (existing : List String) (found : Option UserRow)
        → Keeps IsValid (add_mention deps name now uuid author email existing found)
    unfolding add_mention
    add_mention-IsValid email existing none = search valid_rules
    add_mention-IsValid email existing (some user) = search valid_rules

    mention_each-IsValid :
        (existing emails : List String)
        → Keeps IsValid (mention_each deps name now uuid author existing emails)
    unfolding mention_each
    mention_each-IsValid existing [] = Keeps-pure IsValid []
    mention_each-IsValid existing (email ∷ emails) =
        Keeps-bind IsValid _ _ (Keeps-gets IsValid _) λ found.
          Keeps-bind IsValid _ _ (add_mention-IsValid email existing found) λ added.
            Keeps-bind IsValid _ _ (mention_each-IsValid _ emails) λ inserted. Keeps-pure IsValid _

  refresh_each-IsValid :
      (doc : Document) (comments : List CommentRow)
      → Keeps IsValid (refresh_each deps name now doc comments)
  unfolding refresh_each
  refresh_each-IsValid doc [] = Keeps-pure IsValid tt
  refresh_each-IsValid doc (comment ∷ comments) =
      Keeps-bind IsValid _ _ (Keeps-require IsValid _ _) λ orphaned.
        Keeps-bind IsValid _ _ (search (valid_rules, set_orphaned-IsValid))
          λ _. refresh_each-IsValid doc comments

  store_live-IsValid :
      (doc : Document) (uuid : String → String) (row : NoteRow)
      → Keeps IsValid (store_live deps name now doc uuid row)
  unfolding store_live
  store_live-IsValid doc uuid row =
      search
        (
          valid_rules, update_markdown_export-IsValid, replace_for_source-IsValid,
          mention_each-IsValid, refresh_each-IsValid,
        )
        depth 40

  store_found-IsValid :
      (doc : Document) (uuid : String → String) (found : Option NoteRow)
      → Keeps IsValid (store_found deps name now doc uuid found)
  unfolding store_found
  store_found-IsValid doc uuid none = search valid_rules
  store_found-IsValid doc uuid (some row) = search (valid_rules, store_live-IsValid)

  pub store_document-IsValid :
      (doc : Document) (uuid : String → String)
      → Keeps IsValid (store_document deps name now doc uuid)
  unfolding store_document
  store_document-IsValid doc uuid = search (valid_rules, store_found-IsValid)
