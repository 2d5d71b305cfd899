-- ===== src/Db/Integrity/Rules.antt =====
-- The rules for proofs about handlers and a valid database.
use bartleby.Http.Keeps.{
  Keeps, keeps_rules, Keeps-pure, Keeps-raise, Keeps-gets, Keeps-require, Keeps-if, Keeps-bind,
  Keeps-modify,
}
use bartleby.Json.Keeps.{
  json_keeps, get_field-Keeps, as_string-Keeps, as_string_array-Keeps, parse_json_body-Keeps,
}
use bartleby.Db.Integrity.Preserves.{
  soft_delete-IsValid, restore-IsValid, hard_delete-IsValid, Users_insert-IsValid,
  replace_for_note-IsValid, update_title-append-IsValid, mark_read-IsValid,
  Snapshots_insert-IsValid, Mentions_insert-IsValid,
}

pub ruleset valid_rules = (
  keeps_rules, json_keeps, soft_delete-IsValid, restore-IsValid, hard_delete-IsValid,
  Users_insert-IsValid, replace_for_note-IsValid, update_title-append-IsValid, mark_read-IsValid,
  Snapshots_insert-IsValid, Mentions_insert-IsValid,
)
