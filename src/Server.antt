-- ===== src/Server.antt =====
-- The server (server/src/http.ts, server/src/index.ts) as a sequence of calls, each of which runs to
-- its end: the requests that write, the hook that runs when a document is stored, the
-- timers, and what a sign-in writes to the database.
pub mod Invariant
use bartleby.Prelude.{ℕ, String, Bool, Option, none, some, List, [], ◌∷◌}
use bartleby.Json.{Json}
use bartleby.Http.{Exec}
use bartleby.Sql.{OrderBy}
use bartleby.Db.{Db}
use bartleby.Notes
use bartleby.Notes.{SessionUser, ensure_user_exists}
use bartleby.Http.{Result, ok, err}
use bartleby.Auth.Store.{Store, Platform, User}
use bartleby.Auth.Store.Sqlite
use bartleby.Auth.Store.Sqlite.{State}
use bartleby.Auth.Google.{session_user}
use bartleby.Mentions.Sender.{Attempt}
use bartleby.Mentions.Batcher.{MentionBatchItem}
use bartleby.Mentions.Pipeline
use bartleby.Notes.Purge
use bartleby.Mentions.Inbox
use bartleby.Snapshots
use bartleby.Comments
use bartleby.Import
use bartleby.Import.{Part}
use bartleby.Import.Document.{Node}
use bartleby.Import.Parser.{parse_markdown_document}
use bartleby.Derived
use bartleby.Derived.{Document}
use bartleby.Derived.Tags.{Yaml}
use bartleby.Derived.Emails.{extract_mention_emails}

-- What the server is built with: SQLite's sorter, the Yjs accessor, the parsers of YAML, JSON and
-- Markdown, `toLowerCase`, the first byte of a digest, and the options.
pub record Deps : Type 1 where
  pub order : OrderBy
  pub read : String → Option (List ℕ)
  pub resolve_anchor : String → String → Option String
  pub parse_yaml : String → Option Yaml
  pub parse_json : String → Option Json
  pub to_lower_case : String → String
  pub parse_body : String → Option Node
  pub seed : String → Node → Bool
  pub first_byte : String → ℕ
  pub retry_delays_ms : List ℕ
  pub trash_retention_ms : ℕ
  pub auto_snapshot_retention : ℕ

-- A call, with what the clock and `randomUUID()` give it.
pub data Call : Type 0 where
  post_note : Option Json → SessionUser → String → ℕ → Call
  patch_note : String → Option Json → ℕ → Call
  delete_note : String → Bool → ℕ → Call
  restore_note : String → Call
  post_comment : String → Option Json → String → String → (String → String) → ℕ → Call
  post_reply : String → Option Json → String → String → (String → String) → ℕ → Call
  resolve_comment : String → ℕ → Call
  reopen_comment : String → Call
  delete_comment : String → Call
  read_mention : String → String → ℕ → Call
  post_snapshot : String → Option Json → String → ℕ → Call
  restore_snapshot : String → String → String → ℕ → Call
  snapshot_tick : (String → String) → ℕ → Call
  purge_tick : ℕ → Call
  post_import : Option (List Part) → SessionUser → (ℕ → String) → (ℕ → ℕ) → Call
  store_document : String → Document → (String → String) → ℕ → Call
  sign_in : Store → String → String → String → ℕ → Call
  send_batch : (ℕ → Attempt) → ℕ → List MentionBatchItem → Call

-- What the hook is built with.
abbrev pub derived : Deps → Derived.Deps
derived deps = record {
  order = deps.order;
  parse_yaml = deps.parse_yaml;
  parse_json = deps.parse_json;
  to_lower_case = deps.to_lower_case;
}

abbrev pub platform : Deps → Platform
platform deps = record { to_lower_case = deps.to_lower_case; first_byte = deps.first_byte }

-- Both sign-ins store the user and then see to it that the user is there.
pub bridge : Result User × State → Db
bridge (err problem, (transient, db)) = db
bridge (ok user, (transient, db)) = (ensure_user_exists (session_user user) db).1

module _ (deps : Deps) where
  -- The database after a call.
  unfoldable pub handle : Call → Db → Db
  unfolding bridge
  handle (post_note request user id now) db = (Notes.create_note request user id now db).1
  handle (patch_note id request now) db = (Notes.patch_note deps.order id request now db).1
  handle (delete_note id forever now) db = (Notes.delete_note id forever now db).1
  handle (restore_note id) db = (Notes.restore_note id db).1
  handle (post_comment note request user id uuid now) db =
      (Comments.create_comment (extract_mention_emails deps.to_lower_case) uuid deps.resolve_anchor
        note request user id now db).1
  handle (post_reply parent request user id uuid now) db =
      (Comments.create_reply (extract_mention_emails deps.to_lower_case) uuid parent request user id
        now db).1
  handle (resolve_comment id now) db = (Comments.resolve_comment id now db).1
  handle (reopen_comment id) db = (Comments.reopen_comment id db).1
  handle (delete_comment id) db = (Comments.delete_comment id db).1
  handle (read_mention id user now) db = (Inbox.read_mention id user now db).1
  handle (post_snapshot note request id now) db =
      (Snapshots.create_snapshot deps.order deps.read note request id now db).1
  handle (restore_snapshot note snap id now) db =
      (Snapshots.restore_snapshot deps.order deps.read deps.auto_snapshot_retention note snap id now
        db).1
  handle (snapshot_tick uuid now) db =
      (Snapshots.tick_auto_snapshots deps.order deps.read deps.auto_snapshot_retention now uuid
        db).1
  handle (purge_tick now) db = (Purge.run_once deps.trash_retention_ms now db).1
  handle (post_import form user uuid clock) db =
      (Import.import_notes (parse_markdown_document deps.parse_yaml deps.parse_body) deps.seed uuid
        clock form user db).1
  handle (store_document name doc uuid now) db =
      (Derived.store_document (derived deps) name now doc uuid db).1
  handle (sign_in transient email name id now) db =
      bridge (Sqlite.upsert_user_by_email (platform deps) email name id now (transient, db))
  handle (send_batch transport now batch) db =
      Pipeline.on_send transport deps.retry_delays_ms now batch db

  unfoldable pub serve : List Call → Db → Db
  unfolding handle
  serve [] db = db
  serve (call ∷ calls) db = serve calls (handle call db)
