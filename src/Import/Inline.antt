-- ===== src/Import/Inline.antt =====
-- Backlinks and mentions in a text (server/src/import/parser.ts: `splitText`, `rewriteInline`).
pub mod Hits
pub mod Print
use Prim.Native.String.{count}
use bartleby.Prelude.{
  ℕ, String, Bool, ◌+◌, ◌-◌, ◌||◌, ◌&&◌, not, Option, none, some, List, [], ◌∷◌, ◌++◌, nat_eq, ltb,
  leb, if◌then◌else◌,
}
use bartleby.Text.{is_empty, take_text, drop_text}
use bartleby.Sql.{asc}
use bartleby.Sql.Sort.{insertion_sort}
use bartleby.Regex.{
  Regex, chars, seq, alt, many, group, start, boundary, char, some_of, is_letter, is_digit, is_word,
  Match, match_all,
}
use bartleby.Derived.Links.{backlink}
use bartleby.Derived.Emails.{is_local, top_level}
use bartleby.Derived.Tags.{captured}
use bartleby.Import.Document.{Kind, plain, Node, Nodes, text_node, element, empty, child, join}

-- `BACKLINK_RE` is the expression of derived/backlinks.ts.
-- `(^|[^\w@])@([A-Za-z0-9._%+-]+@[A-Za-z0-9.-]+\.[A-Za-z]{2,})\b`
abbrev pub is_host : ℕ → Bool
is_host c = is_letter c || is_digit c || nat_eq c b'.' || nat_eq c b'-'

abbrev pub email : Regex
email = seq (some_of (chars is_local)) (seq (char b'@') (seq (some_of (chars is_host)) top_level))

abbrev pub prefix : Regex
prefix = alt start (chars (λ c. not (is_word c || nat_eq c b'@')))

abbrev pub mention_re : Regex
mention_re = seq (group prefix) (seq (char b'@') (seq (group email) boundary))

-- `InlineFragment`: a span of the text and the node that takes its place.
pub record Fragment : Type 0 where
  pub start : ℕ
  pub end : ℕ
  pub kind : Kind

abbrev second : List String → String
second (a ∷ b ∷ more) = b
second _ = ""

abbrev pub backlink_hit : Match → Fragment
backlink_hit m = record {
  start = m.index;
  end = m.index + count m.text;
  kind = Kind.backlink "" (captured m);
}

abbrev pub mention_hit : Match → Fragment
mention_hit m =
    let from = m.index + count (captured m) in
    record {
      start = from;
      end = from + 1 + count (second m.groups);
      kind = Kind.mention (second m.groups) "";
    }

abbrev pub each : (Match → Fragment) → List Match → List Fragment
each f [] = []
each f (m ∷ ms) = f m ∷ each f ms

unfoldable pub find_hits : String → List Fragment
unfolding match_all
find_hits s = each backlink_hit (match_all backlink s) ++ each mention_hit (match_all mention_re s)

-- Of hits that overlap, the first one stays.
unfoldable pub drop_overlaps : ℕ → List Fragment → List Fragment
drop_overlaps cursor [] = []
drop_overlaps cursor (h ∷ hits) =
    let taken = h ∷ drop_overlaps h.end hits in
    let other = drop_overlaps cursor hits in if leb cursor h.start then taken else other

abbrev text_child : String → List String → Nodes → Nodes
text_child s marks more = if is_empty s then more else child (text_node s marks) more

-- `out`, from `pos` on. A slice that would be empty makes no node.
unfoldable pub cut : String → List String → ℕ → List Fragment → Nodes
cut s marks pos [] =
    if ltb pos (count s) then child (text_node (drop_text pos s) marks) empty else empty
cut s marks pos (h ∷ hits) =
    let more = child (element h.kind empty []) (cut s marks h.end hits) in
    if ltb pos h.start
    then child (text_node (take_text (h.start - pos) (drop_text pos s)) marks) more
    else more

-- With no hits, the text is one node.
unfoldable pub split_text : String → List String → Nodes
unfolding cut drop_overlaps find_hits
split_text s marks =
    if is_empty s
    then empty
    else cut s marks 0 (drop_overlaps 0 (insertion_sort (asc (λ h. h.start)) (find_hits s)))

unfoldable pub rewrite_inline : Nodes → Nodes
unfolding split_text
rewrite_inline empty = empty
rewrite_inline (child (text_node s marks) ns) = join (split_text s marks) (rewrite_inline ns)
rewrite_inline (child (element kind ns marks) more) =
    child (element kind ns marks) (rewrite_inline more)
