-- ===== src/Import/Invariant.antt =====
-- Proofs about the import (server/src/import/routes.ts) and a valid database.
use bartleby.Prelude.{ℕ, suc, String, Bool, Option, List, [], ◌∷◌}
use bartleby.Http.Keeps.{Keeps, Keeps-pure, Keeps-bind, Keeps-require}
use bartleby.Db.Integrity.{IsValid}
use bartleby.Db.Integrity.Rules.{valid_rules}
use bartleby.Db.Integrity.Preserves.{insert-append-IsValid}
use bartleby.Notes.{SessionUser, new_note}
use bartleby.Notes.Invariant.{ensure_user_exists-IsValid}
use bartleby.Import.Document.{Node}
use bartleby.Import.Parser.{Frontmatter}
use bartleby.Import.{
  Part, text_part, file_part, ImportedFile, read_parts, any_files, read_multipart_files, pick_title,
  import_parsed, import_each, import_notes,
}

read_parts-IsValid : (parts : List Part) → Keeps IsValid (read_parts parts)
unfolding read_parts
read_parts-IsValid [] = search valid_rules
read_parts-IsValid (text_part s ∷ parts) = read_parts-IsValid parts
read_parts-IsValid (file_part name content ∷ parts) =
    Keeps-bind IsValid _ _ (search valid_rules)
      λ _. Keeps-bind IsValid _ _ (read_parts-IsValid parts) λ files. Keeps-pure IsValid _

any_files-IsValid : (files : List ImportedFile) → Keeps IsValid (any_files files)
unfolding any_files
any_files-IsValid [] = search valid_rules
any_files-IsValid (f ∷ fs) = search valid_rules

read_multipart_files-IsValid :
    (form : Option (List Part)) → Keeps IsValid (read_multipart_files form)
unfolding read_multipart_files
read_multipart_files-IsValid form =
    Keeps-bind IsValid _ _ (search valid_rules)
      λ parts. Keeps-bind IsValid _ _ (read_parts-IsValid parts) λ files. any_files-IsValid files

module _ (parse : String → Option (Node × Frontmatter)) (seed : String → Node → Bool)
    (uuid : ℕ → String) (clock : ℕ → ℕ) where
  import_parsed-IsValid :
      (user_id id : String) (now : ℕ) (filename : String) (parsed : Node × Frontmatter)
      → Keeps IsValid (import_parsed parse seed uuid clock user_id id now filename parsed)
  unfolding import_parsed
  import_parsed-IsValid user_id id now filename parsed =
      let title = pick_title parsed.1.title filename in
      insert-append-IsValid (new_note id title user_id now) now _ (search valid_rules depth 20)

  import_each-IsValid :
      (user_id : String) (place : ℕ) (files : List ImportedFile)
      → Keeps IsValid (import_each parse seed uuid clock user_id place files)
  unfolding import_each
  import_each-IsValid user_id place [] = Keeps-pure IsValid []
  import_each-IsValid user_id place (f ∷ files) =
      Keeps-bind IsValid _ _ (Keeps-require IsValid _ _) λ parsed.
        Keeps-bind IsValid _ _ (import_parsed-IsValid user_id _ _ _ parsed) λ made.
          Keeps-bind IsValid _ _ (import_each-IsValid user_id (suc place) files)
            λ rest. Keeps-pure IsValid _

  pub import_notes-IsValid :
      (form : Option (List Part)) (user : SessionUser)
      → Keeps IsValid (import_notes parse seed uuid clock form user)
  unfolding import_notes
  import_notes-IsValid form user =
      Keeps-bind IsValid _ _ (read_multipart_files-IsValid form) λ files.
        Keeps-bind IsValid _ _ (ensure_user_exists-IsValid user)
          λ user_id. import_each-IsValid user_id 0 files
