-- ===== src/Import/Parser.antt =====
-- The frontmatter of a file, and the whole parser (server/src/import/parser.ts). The packages yaml,
-- markdown-it and prosemirror-markdown are parameters.
use Prim.Native.String.{count}
use bartleby.Prelude.{String, Option, none, some, List, []}
use bartleby.Text.{drop_text}
use bartleby.Regex.{Match, exec}
use bartleby.Derived.Tags.{
  Yaml, mapping, other, Field, string, field, field_tags, frontmatter, captured,
}
use bartleby.Import.Document.{Node}
use bartleby.Import.Tasks.{rewrite_node}

-- Without `raw`, which nothing reads.
pub record Frontmatter : Type 0 where
  pub title : Option String
  pub tags : List String

abbrev blank : Frontmatter
blank = record { title = none; tags = [] }

abbrev title_field : Option Field → Option String
title_field (some (string s)) = some s
title_field _ = none

abbrev of_yaml : Yaml → Frontmatter
of_yaml other = blank
of_yaml (mapping fields) = record {
  title = title_field (field "title" fields);
  tags = field_tags (field "tags" fields);
}

module _ (parse_yaml : String → Option Yaml) where
  -- The body with the frontmatter; `none` is malformed YAML.
  from_match : String → Option Match → Option (String × Frontmatter)
  from_match text none = some (text, blank)
  from_match text (some m) = elim (parse_yaml (captured m)) [
    | none ↦ none
    | some value ↦ some (drop_text (count m.text) text, of_yaml value)
  ]

  unfoldable pub extract_frontmatter : String → Option (String × Frontmatter)
  unfolding from_match exec
  extract_frontmatter text = from_match text (exec frontmatter text)

  -- `parse_body` is the configured `MarkdownParser`, or `none` where it throws.
  module _ (parse_body : String → Option Node) where
    unfoldable pub parse_markdown : String → Option Node
    unfolding rewrite_node
    parse_markdown body = elim (parse_body body) [
      | none ↦ none
      | some raw ↦ some (rewrite_node raw)
    ]

    unfoldable pub parse_markdown_document : String → Option (Node × Frontmatter)
    unfolding extract_frontmatter parse_markdown
    parse_markdown_document text = elim (extract_frontmatter text) [
      | none ↦ none
      | some (body, front) ↦ elim (parse_markdown body) [
        | none ↦ none
        | some doc ↦ some (doc, front)
      ]
    ]
