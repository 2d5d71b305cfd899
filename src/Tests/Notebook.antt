-- ===== src/Tests/Notebook.antt =====
-- The theorems on derived state, titles, import and export, at small inputs.
use bartleby.Prelude.{String, false, ◌≡◌, ◌↔◌, refl, none, some, [], ◌∷◌}
use bartleby.Text.{AllChars, is_empty}
use bartleby.Http.{ok, ◌>>=◌}
use bartleby.Sql.{find}
use bartleby.Sql.Rows.{Distinct, keyed}
use bartleby.Sql.Sort.{insertion}
use bartleby.Db.{Db}
use bartleby.Db.Titles.Holder.{HasOnly}
use bartleby.Notes.Links.{one, resolve_title}
use bartleby.Notes.Links.Unique.{resolve_title-HasOnly}
use bartleby.Derived.{Deps, Document, store_document, title_resolver}
use bartleby.Derived.Again.{mentions-store_document}
use bartleby.Derived.Resolver.{title_resolver-HasOnly}
use bartleby.Derived.Tags.{extract_tags, candidates}
use bartleby.Derived.Tags.Spelling.{extract_tags-Distinct}
use bartleby.Import.Inline.{split_text}
use bartleby.Import.Inline.Print.{print, print-split_text}
use bartleby.Export.Serializer.{quote, slugify}
use bartleby.Export.Serializer.Quote.{read_scalar, read_scalar-quote}
use bartleby.Export.Serializer.Slug.{is_slug_char, slugify-AllChars}
use bartleby.Derived.Links.{extract_backlinks}
use bartleby.Import.{title_from_filename}
use bartleby.Import.Document.{Kind, Nodes, child, text_node, element}
use bartleby.Tests.Data.{library}

abbrev deps : Deps
deps = record {
  order = insertion;
  parse_yaml = λ s. none;
  parse_json = λ s. none;
  to_lower_case = λ s. s;
}

abbrev page : Document
page = record { markdown = some "for @bob@example.com"; gone = λ position. some false }

abbrev quiet_library : Db
quiet_library = record (library none) { mentions = []; comments = [] }

abbrev after : Db
after = (store_document deps "n-trip" 50 page (λ e. "m-9") quiet_library).1

mentions-store_document_example :
    (store_document deps "n-trip" 60 page (λ e. "m-10") after).1.mentions ≡ after.mentions
unfolding store_document ◌>>=◌ bartleby.Db.Notes.find_by_id bartleby.Db.Tags.replace_for_note
    extract_tags bartleby.Db.Backlinks.replace_for_source bartleby.Derived.Links.resolve_backlinks
    extract_backlinks bartleby.Derived.Emails.extract_mention_emails bartleby.Text.is_space
    bartleby.Db.Users.find_by_email bartleby.Db.Notes.update_markdown_export
    bartleby.Db.Mentions.list_for_note bartleby.Db.Mentions.insert bartleby.Db.Comments.list_by_note
mentions-store_document_example =
    mentions-store_document deps "n-trip" 50 60 page page (λ e. "m-9") (λ e. "m-10") quiet_library
      after ("m-9" ∷ []) refl refl

title_resolver-HasOnly_example :
    (title_resolver insertion (library none) "Trip" ≡ some "n-trip")
    ↔ HasOnly "Trip" "n-trip" (library none).note_titles_history
title_resolver-HasOnly_example = title_resolver-HasOnly insertion "Trip" "n-trip" (library none)

resolve_title-HasOnly_example :
    ((resolve_title insertion (some "Plan") (library none)).0 ≡ ok (one "n-trip"))
    ↔ HasOnly "Plan" "n-trip" (library none).note_titles_history
resolve_title-HasOnly_example = resolve_title-HasOnly insertion "Plan" "n-trip" (library none) refl

extract_tags-Distinct_example :
    Distinct (λ s. s) (extract_tags (λ s. none) (λ s. s) "#tent and #tent")
    × ((k : String)
        → find (keyed (λ s. s) k) (extract_tags (λ s. none) (λ s. s) "#tent and #tent")
          ≡ find (keyed (λ s. s) k) (candidates (λ s. none) (λ s. s) "#tent and #tent"))
extract_tags-Distinct_example = extract_tags-Distinct (λ s. s) (λ s. none) "#tent and #tent"

print-split_text_example :
    print (split_text "see [[Trip]] @a@b.co!" ("strong" ∷ [])) ≡ "see [[Trip]] @a@b.co!"
print-split_text_example = print-split_text "see [[Trip]] @a@b.co!" ("strong" ∷ [])

read_scalar-quote_example : read_scalar (quote "say \"hi\" \\ bye") ≡ some "say \"hi\" \\ bye"
read_scalar-quote_example = read_scalar-quote "say \"hi\" \\ bye"

slugify-AllChars_example :
    AllChars is_slug_char (slugify (λ s. s) "trip_to: \"spain\"")
    × (is_empty (slugify (λ s. s) "trip_to: \"spain\"") ≡ false)
slugify-AllChars_example = slugify-AllChars (λ s. s) "trip_to: \"spain\""

-- Runs of the extractors.
extract_backlinks_run :
    extract_backlinks "see [[A]], `[[B]]`, [[ A ]] and [[C D]]\n```\n[[E]]\n```" ≡ "A" ∷ "C D" ∷ []
unfolding extract_backlinks bartleby.Text.trim
extract_backlinks_run = refl

extract_tags_run :
    extract_tags (λ s. none) (λ s. s) "#tent a#b #1 http://x.y/#z `#code` #camp-site"
    ≡ "tent" ∷ "camp-site" ∷ []
unfolding extract_tags bartleby.Text.is_space bartleby.Auth.Map.get bartleby.Auth.Map.set
extract_tags_run = refl

slugify_run : slugify (λ s. s) "--trip_to:  spain! (2)-" ≡ "trip-to-spain-2"
unfolding slugify bartleby.Text.is_space
slugify_run = refl

title_from_filename_run : title_from_filename "notes/trip.v2.MD" ≡ "trip.v2"
unfolding title_from_filename bartleby.Text.trim
title_from_filename_run = refl

split_text_run :
    split_text "see [[Trip]] @a@b.co!" []
    ≡ child (text_node "see " []) (
        child (element (Kind.backlink "" "Trip") Nodes.empty []) (
          child (text_node " " []) (
            child
              (element (Kind.mention "a@b.co" "") Nodes.empty [])
              (child (text_node "!" []) Nodes.empty))))
unfolding split_text
split_text_run = refl
