-- ===== src/Import.antt =====
-- The import of Markdown files (server/src/import/routes.ts). Parameters: the parser of a file, and
-- whether `yjs.replace`, which puts a document into the live one, returns (it may throw). `uuid` and `clock` give the
-- id and the time for the file at a place.
pub mod Document
pub mod Inline
pub mod Tasks
pub mod Parser
pub mod Invariant
use bartleby.Prelude.{
  ℕ, suc, ◌+◌, String, Bool, ◌||◌, nat_eq, Option, none, some, List, [], ◌∷◌, if◌then◌else◌,
}
use Prim.Native.Char.{Char, code}
use Prim.Native.String
use bartleby.Text.{trim, is_empty}
use bartleby.Regex.{Regex, chars, seq, alt, finish, char, test, replace_first}
use bartleby.Http.{Exec, internal, validation, pure, raise, require, ◌>>=◌, ◌>>◌}
use bartleby.Db.{Db}
use bartleby.Db.Notes
use bartleby.Db.Titles
use bartleby.Db.Tags.{is_nil, replace_for_note}
use bartleby.Notes.{SessionUser, ensure_user_exists, new_note}
use bartleby.Import.Document.{Node}
use bartleby.Import.Parser.{Frontmatter}

-- A letter in either case.
abbrev any_case : ℕ → Regex
any_case c = chars (λ d. nat_eq d c || nat_eq (d + 32) c)

abbrev word : String → Regex
word String.[] = finish
word (String.◌∷◌ c s) = seq (any_case (code c)) (word s)

-- `/\.(md|markdown)$/i`; its group is not used.
abbrev pub extension : Regex
extension = seq (char b'.') (alt (word "md") (word "markdown"))

abbrev is_separator : ℕ → Bool
is_separator c = nat_eq c b'/' || nat_eq c 92

-- The last part of a path, after `cur`.
bare_from : String → String → String
bare_from cur String.[] = cur
bare_from cur (String.◌∷◌ c s) =
    let closed = bare_from "" s in
    let longer = bare_from (String.◌++◌ cur (String.◌∷◌ c String.[])) s in
    if is_separator (code c) then closed else longer

abbrev or_untitled : String → String
or_untitled s = if is_empty s then "Untitled" else s

unfoldable pub title_from_filename : String → String
unfolding bare_from replace_first
title_from_filename filename =
    or_untitled (trim (replace_first extension "" (bare_from "" filename)))

-- An entry of the form: a text, or a file with its name and its content.
pub data Part : Type 0 where
  text_part : String → Part
  file_part : String → String → Part

pub record ImportedFile : Type 0 where
  pub filename : String
  pub content : String

read_parts : List Part → Exec Db (List ImportedFile)
unfolding test
read_parts [] = pure []
read_parts (text_part s ∷ parts) = read_parts parts
read_parts (file_part name content ∷ parts) = do
  if test extension name then pure tt else raise validation
  files ← read_parts parts
  pure (record { filename = name; content = content } ∷ files)

any_files : List ImportedFile → Exec Db (List ImportedFile)
any_files [] = raise validation
any_files (f ∷ fs) = pure (f ∷ fs)

-- `none` is a request that is no form.
unfoldable pub read_multipart_files : Option (List Part) → Exec Db (List ImportedFile)
unfolding read_parts any_files
read_multipart_files form = do
  parts ← require form validation
  files ← read_parts parts
  any_files files

-- The frontmatter's title comes before the file's name.
abbrev pub pick_title : Option String → String → String
unfolding title_from_filename
pick_title none filename = title_from_filename filename
pick_title (some title) filename =
    if is_empty (trim title) then title_from_filename filename else trim title

module _ (parse : String → Option (Node × Frontmatter)) (seed : String → Node → Bool)
    (uuid : ℕ → String) (clock : ℕ → ℕ) where
  import_parsed : String → String → ℕ → String → Node × Frontmatter → Exec Db (String × String)
  import_parsed user_id id now filename parsed = do
    Notes.insert (new_note id (pick_title parsed.1.title filename) user_id now)
    Titles.append id (pick_title parsed.1.title filename) now
    if seed id parsed.0 then pure tt else raise internal
    if is_nil parsed.1.tags then pure tt else replace_for_note id parsed.1.tags
    pure (id, pick_title parsed.1.title filename)

  import_each : String → ℕ → List ImportedFile → Exec Db (List (String × String))
  unfolding import_parsed
  import_each user_id place [] = pure []
  import_each user_id place (f ∷ files) = do
    parsed ← require (parse f.content) validation
    made ← import_parsed user_id (uuid place) (clock place) f.filename parsed
    rest ← import_each user_id (suc place) files
    pure (made ∷ rest)

  -- POST /notes/import
  unfoldable pub import_notes : Option (List Part) → SessionUser → Exec Db (List (String × String))
  unfolding import_each
  import_notes form user = do
    files ← read_multipart_files form
    user_id ← ensure_user_exists user
    import_each user_id 0 files
