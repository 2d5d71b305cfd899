-- ===== src/Tests.antt =====
-- Concrete inputs, and the theorems at them.
mod Codec
mod Data
mod Database
mod Notebook
mod Sessions
mod SignIn
mod Mail
