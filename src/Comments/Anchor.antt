-- ===== src/Comments/Anchor.antt =====
-- Whether a comment has lost its place (server/src/comments/anchor.ts). `JSON.parse` and the
-- resolution of a position by the package yjs are parameters.
use bartleby.Prelude.{String, Bool, true, ◌==◌, ◌||◌, Option, none, some, if◌then◌else◌}
use bartleby.Json.{Json, obj, prop_of}

-- The fields `from` and `to`, where both are there. An array has neither.
anchor_ends : Option Json → Option (Json × Json)
anchor_ends (some (obj ps)) = elim (prop_of "from" ps) [
  | none ↦ none
  | some from ↦ elim (prop_of "to" ps) [ none ↦ none | some to ↦ some (from, to) ]
]
anchor_ends _ = none

unfoldable pub try_parse_anchor : (String → Option Json) → String → Option (Json × Json)
unfolding anchor_ends
try_parse_anchor parse_json serialized =
    if serialized == "" then none else anchor_ends (parse_json serialized)

-- Whether a position of the document is gone, or `none` where yjs throws.
both_gone : (Json → Option Bool) → Option (Json × Json) → Option Bool
both_gone gone none = some true
both_gone gone (some (from, to)) = elim (gone from) [
  | none ↦ none
  | some a ↦ elim (gone to) [ none ↦ none | some b ↦ some (a || b) ]
]

unfoldable pub is_anchor_orphaned :
    (String → Option Json) → (Json → Option Bool) → String → Option Bool
unfolding both_gone try_parse_anchor
is_anchor_orphaned parse_json gone serialized =
    both_gone gone (try_parse_anchor parse_json serialized)
