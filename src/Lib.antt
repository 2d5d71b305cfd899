-- ===== src/Lib.antt =====
-- The server of bartleby, a shared notebook: its database, its notes, comments, snapshots and
-- mentions APIs, what it derives from a document, import and export, its sessions and sign-in, and
-- its mention e-mails.
--
-- The parts and their files (paths from the repository's root):
--   Prelude, Text           shared names, tests, list lemmas; String.trim, slices of a text
--   Regex                   JavaScript's regular expressions, as far as the sources below use them
--   Http, Json              server/src/http/errors.ts, and the way in which every handler reads its body
--   Sql                     the statements that the repositories prepare, over lists of rows
--   Db                      server/src/db: one list for each table, and a module for each repository;
--                           Db/Integrity says what a valid database is, with the lemmas on writes
--   Notes                   server/src/notes/routes.ts, ensure-user.ts; Notes/Purge is purge.ts,
--                           Notes/Links the routes on titles and backlinks
--   Comments                server/src/comments/routes.ts; Comments/Anchor is anchor.ts
--   Snapshots               server/src/snapshots/routes.ts, scheduler.ts
--   Mentions                server/src/mentions/routes.ts (Inbox), batcher.ts, email-sender.ts,
--                           pipeline.ts, email-template.ts (Template)
--   Derived                 server/src/derived/hook.ts; tags.ts (Tags), backlinks.ts (Links, Code),
--                           mentions.ts (Emails)
--   Import                  server/src/import/routes.ts, parser.ts (Parser, Inline, Tasks)
--   Export                  server/src/export/routes.ts, serializer.ts (Serializer)
--   Auth                    server/src/auth: store.ts (Store), sqlite-user-store.ts (Store/Sqlite),
--                           session.ts (Session), middleware.ts and hocuspocus.ts (Gate),
--                           allowlist.ts and server/src/users/routes.ts (Allowlist), routes.ts and
--                           google.ts (Google, Device, Page), dev-routes.ts (Dev)
--   Server                  the requests that write, the sign-ins, the stores of a document, and the
--                           timers, one after the other
--   Tests                   concrete inputs
--
-- A function keeps its name in the source, in snake_case; a handler is named for what it does
-- (create_note is POST /notes). A handler is an action on the database that ends with an answer or
-- an error; what it wrote before it threw stays. A handler runs to its end before the next one
-- starts: the points where the source awaits the request's body are not interleaved. An insert that
-- breaks a primary or foreign key, a bad write of the database, and a TypeError are `internal`.
-- A call that leaves the database alone is handed on as a value: the hook yields the ids that it
-- passes to onMentionInserted.
--
-- A time is a number of milliseconds: the texts that toISOString makes have one width, so their order
-- is that of the numbers. What randomUUID(), randomBytes and the clock return are arguments. SQLite's
-- ORDER BY is a parameter that yields the same rows in order and may put rows with equal keys as it
-- likes. The token library is a parameter that accepts what it signed with the same key, issuer and
-- audience before the expiry. Other parameters: toLowerCase, toUpperCase, localeCompare,
-- encodeURIComponent and decodeURIComponent, JSON.parse, SHA-256, the package yaml (whose value is
-- read as far as the code looks into it), markdown-it's parser, the packages fflate and yjs, the
-- accessor of live documents, the text at an anchor, the snippet of a text, the client of Google's
-- API and its answers. The handlers on comments take the extractor of e-mails as an argument; the
-- server passes the one that is modelled. The e-mail of a session's user is taken as it is stored,
-- trimmed and in lower case. A JSON number is a natural number, since no handler here reads one. The
-- id of a history row or a backlink is its place in the table. The table documents is Hocuspocus's:
-- it is in the model as it is in the file, and nothing here writes it. Deleting a note takes its comments by
-- their note alone, for a reply has its parent's note. A text is a list of code points where
-- JavaScript has UTF-16 units.
--
-- The routes and gates of Auth are modelled over the session store in memory; the server runs with
-- the one over the database, Store/Sqlite.
--
-- The loops run over the rows, the delays, the events or the characters and end by themselves. Only a
-- regular expression's repetition takes fuel: the number of characters left, which is enough because
-- each round of the repetition reads at least one.
--
-- Not modelled: the clients (web, tui), ProseMirror's Markdown, full-text search, configuration
-- and wiring.
pub mod Prelude
pub mod Text
pub mod Regex
pub mod Derived
pub mod Import
pub mod Export
pub mod Json
pub mod Http
pub mod Sql
pub mod Db
pub mod Notes
pub mod Auth
pub mod Mentions
pub mod Snapshots
pub mod Comments
pub mod Server
mod Tests
