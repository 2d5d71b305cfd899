-- ===== src/Mentions.antt =====
-- The mentions inbox (server/src/mentions/routes.ts) and the e-mails about mentions (email-sender.ts,
-- batcher.ts, pipeline.ts, email-template.ts).
pub mod Inbox
pub mod Sender
pub mod Batcher
pub mod Pipeline
pub mod Template
