-- ===== src/Mentions/Inbox/Invariant.antt =====
-- Proofs about POST /mentions/:id/read (server/src/mentions/routes.ts) and a valid database.
use bartleby.Prelude.{ℕ, String, Option}
use bartleby.Http.Keeps.{Keeps}
use bartleby.Db.{MentionRow}
use bartleby.Db.Integrity.{IsValid}
use bartleby.Db.Integrity.Rules.{valid_rules}
use bartleby.Mentions.Inbox.{read_mention, answer}

answer-IsValid : (o : Option MentionRow) → Keeps IsValid (answer o)
unfolding answer
answer-IsValid o = search valid_rules

pub read_mention-IsValid : (id user : String) (now : ℕ) → Keeps IsValid (read_mention id user now)
unfolding read_mention
read_mention-IsValid id user now = search (valid_rules, answer-IsValid) depth 20
