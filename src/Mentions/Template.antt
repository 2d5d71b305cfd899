-- ===== src/Mentions/Template.antt =====
-- The text of a mention e-mail (server/src/mentions/email-template.ts). `encodeURIComponent`, and the
-- text of a number, are parameters.
pub mod Escape
use Prim.Native.Char.{code}
use Prim.Native.String
use bartleby.Prelude.{
  ℕ, String, Bool, ◌&&◌, Option, none, some, List, [], ◌∷◌, map, nat_eq, length, if◌then◌else◌,
}
use bartleby.Text.{is_empty, join}
use bartleby.Export.Serializer.{substitute}
use bartleby.Mentions.Batcher.{MentionBatchItem, MentionEmailSource, note_body, comment}

pub record RenderMentionBatchInput : Type 0 where
  pub recipient_name : String
  pub public_base_url : String
  pub items : List MentionBatchItem

pub record RenderedEmail : Type 0 where
  pub subject : String
  pub html : String
  pub text : String

unfoldable pub escape_html : String → String
unfolding substitute
escape_html input = substitute 39 "&#39;" (
    substitute 34 "&quot;"
      (substitute b'>' "&gt;" (substitute b'<' "&lt;" (substitute b'&' "&amp;" input))))

-- `publicBaseUrl.replace(/\/+$/, '')`
unfoldable pub without_slashes : String → String
without_slashes String.[] = String.[]
without_slashes (String.◌∷◌ c s) =
    let rest = without_slashes s in
    if nat_eq (code c) b'/' && is_empty rest then "" else String.◌∷◌ c rest

abbrev source_label : MentionEmailSource → String
source_label comment = "in a comment on"
source_label note_body = "in"

abbrev found_line : (ℕ → String) → List MentionBatchItem → String
found_line show (item ∷ []) = "You were mentioned in Bartleby:"
found_line show items =
    join "" ("You have " ∷ show (length items) ∷ " new mentions in Bartleby:" ∷ [])

abbrev subject_line : (ℕ → String) → MentionBatchItem → List MentionBatchItem → String
subject_line show item [] = join "" (item.mentioner_name ∷ " mentioned you in Bartleby" ∷ [])
subject_line show item more =
    join "" (show (length (item ∷ more)) ∷ " new mentions in Bartleby" ∷ [])

abbrev why_line : String
why_line = "You received this email because you were @-mentioned in a Bartleby note or comment."

module _ (encode : String → String) (show : ℕ → String) where
  unfoldable pub deep_link : String → String → String
  unfolding without_slashes
  deep_link public_base_url note_id =
      join "" (without_slashes public_base_url ∷ "/n/" ∷ encode note_id ∷ [])

  item_html : String → MentionBatchItem → String
  unfolding escape_html deep_link
  item_html url it =
      let link = deep_link url it.note_id in
      join "" (
        "<div style=\"margin: 0 0 24px 0; padding: 16px; border: 1px solid #e5e7eb; border-radius: 8px;\">"
        ∷ "<p style=\"margin: 0 0 8px 0; color: #374151;\">"
        ∷ "<strong>"
        ∷ escape_html it.mentioner_name
        ∷ "</strong> mentioned you "
        ∷ source_label it.source
        ∷ " "
        ∷ "<a href=\""
        ∷ link
        ∷ "\" style=\"color: #2563eb; text-decoration: none;\">"
        ∷ escape_html it.note_title
        ∷ "</a>"
        ∷ "</p>"
        ∷ "<blockquote style=\"margin: 8px 0 12px 0; padding: 8px 12px; border-left: 3px solid #d1d5db; color: #4b5563; font-style: italic;\">"
        ∷ escape_html it.snippet
        ∷ "</blockquote>"
        ∷ "<p style=\"margin: 0;\"><a href=\""
        ∷ link
        ∷ "\" style=\"color: #2563eb;\">Open note</a></p>"
        ∷ "</div>"
        ∷ [])

  item_text : String → MentionBatchItem → String
  unfolding deep_link
  item_text url it = join "\n" (
      join "" (
        "- "
        ∷ it.mentioner_name
        ∷ " mentioned you "
        ∷ source_label it.source
        ∷ " \""
        ∷ it.note_title
        ∷ "\":"
        ∷ [])
      ∷ join "" ("  \"" ∷ it.snippet ∷ "\"" ∷ [])
      ∷ join "" ("  " ∷ deep_link url it.note_id ∷ [])
      ∷ [])

  html_body : RenderMentionBatchInput → String
  unfolding item_html escape_html
  html_body input = join "\n" (
      "<!doctype html>"
      ∷ "<html><body style=\"font-family: -apple-system, BlinkMacSystemFont, 'Segoe UI', Roboto, sans-serif; max-width: 640px; margin: 24px auto; padding: 0 16px; color: #111827;\">"
      ∷ join ""
          ("<p style=\"margin: 0 0 16px 0;\">Hi " ∷ escape_html input.recipient_name ∷ ",</p>" ∷ [])
      ∷ join "" ("<p style=\"margin: 0 0 24px 0;\">" ∷ found_line show input.items ∷ "</p>" ∷ [])
      ∷ join "\n" (map (item_html input.public_base_url) input.items)
      ∷ join "" (
          "<p style=\"margin: 24px 0 0 0; color: #6b7280; font-size: 12px;\">" ∷ why_line ∷ "</p>"
          ∷ [])
      ∷ "</body></html>"
      ∷ [])

  text_body : RenderMentionBatchInput → String
  unfolding item_text
  text_body input = join "\n" (
      join "" ("Hi " ∷ input.recipient_name ∷ "," ∷ [])
      ∷ ""
      ∷ found_line show input.items
      ∷ ""
      ∷ join "\n\n" (map (item_text input.public_base_url) input.items)
      ∷ ""
      ∷ why_line
      ∷ [])

  -- `none` is the thrown error.
  rendered : RenderMentionBatchInput → List MentionBatchItem → Option RenderedEmail
  unfolding html_body text_body
  rendered input [] = none
  rendered input (item ∷ more) = some record {
    subject = subject_line show item more;
    html = html_body input;
    text = text_body input;
  }

  unfoldable pub render_mention_batch : RenderMentionBatchInput → Option RenderedEmail
  unfolding rendered
  render_mention_batch input = rendered input input.items
