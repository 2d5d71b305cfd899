-- ===== src/Import/Tasks.antt =====
-- Task lists (server/src/import/parser.ts: `rewriteNode`, `looksLikeTaskList`, `stripTaskPrefix`).
use Prim.Native.String.{count}
use bartleby.Prelude.{
  String, Bool, true, false, ◌==◌, ◌||◌, ◌&&◌, Option, none, some, List, [], nat_eq, if◌then◌else◌,
  is_some,
}
use bartleby.Text.{is_empty, drop_text}
use bartleby.Regex.{Regex, chars, seq, group, start, char, optional, Match, exec}
use bartleby.Derived.Tags.{captured}
use bartleby.Import.Document.{
  Kind, plain, task_item, type_name, Node, Nodes, text_node, element, empty, child,
}
use bartleby.Import.Inline.{rewrite_inline}

-- `^\[([ xX])\] ?`
abbrev pub task_prefix : Regex
task_prefix = seq start (
    seq (char b'[') (
      seq (group (chars (λ c. nat_eq c b' ' || nat_eq c b'x' || nat_eq c b'X')))
        (seq (char b']') (optional (char b' ')))))

abbrev pub has_prefix : Node → Bool
unfolding exec
has_prefix (text_node s marks) = is_some (exec task_prefix s)
has_prefix (element kind ns marks) = false

-- A paragraph that begins with a text with the prefix.
abbrev begins_task : Node → Bool
begins_task (element kind (child first ns) marks) =
    type_name kind == "paragraph" && has_prefix first
begins_task _ = false

abbrev is_task : Node → Bool
is_task (element kind (child first ns) marks) = type_name kind == "list_item" && begins_task first
is_task _ = false

abbrev all_tasks : Nodes → Bool
all_tasks empty = true
all_tasks (child item items) = is_task item && all_tasks items

unfoldable pub looks_like_task_list : Nodes → Bool
looks_like_task_list empty = false
looks_like_task_list (child item items) = is_task item && all_tasks items

-- The marker's letter, and the paragraph's children without it.
abbrev is_checked : Option Match → Bool
is_checked none = false
is_checked (some m) = captured m == "x" || captured m == "X"

abbrev without_prefix : Option Match → String → List String → Nodes → Nodes
without_prefix none s marks ns = child (text_node s marks) ns
without_prefix (some m) s marks ns =
    let rest = drop_text (count m.text) s in
    if is_empty rest then ns else child (text_node rest marks) ns

unfoldable pub strip_paragraph : Node → Bool × Node
unfolding exec
strip_paragraph (element kind (child (text_node s marks) ns) outer) = (
  is_checked (exec task_prefix s),
  element kind (without_prefix (exec task_prefix s) s marks ns) outer,
)
strip_paragraph n = (false, n)

-- A paragraph with its backlinks and mentions.
unfoldable pub rewrite_paragraph : Node → Node
unfolding rewrite_inline
rewrite_paragraph (element kind ns marks) = element kind (rewrite_inline ns) marks
rewrite_paragraph (text_node s marks) = text_node s marks

abbrev list_of_tasks : Kind
list_of_tasks = plain "task_list" ""

-- The children of the item whose first paragraph is given: the prefix goes, and the rest has been
-- rewritten.
abbrev task_from : Node → Nodes → Node
unfolding strip_paragraph rewrite_paragraph
task_from paragraph rest =
    element (task_item (strip_paragraph paragraph).0)
      (child (rewrite_paragraph (strip_paragraph paragraph).1) rest) []

unfoldable mutual
  unfolding looks_like_task_list rewrite_paragraph task_from

  pub rewrite_node : Node → Node
  rewrite_node (text_node s marks) = text_node s marks
  rewrite_node (element kind ns marks) =
      let tasks = element list_of_tasks (task_items ns) [] in
      let same = element kind (rewrite_nodes ns) marks in
      if type_name kind == "bullet_list" && looks_like_task_list ns
      then tasks
      else if type_name kind == "paragraph"
      then rewrite_paragraph (element kind ns marks)
      else same

  rewrite_nodes : Nodes → Nodes
  rewrite_nodes empty = empty
  rewrite_nodes (child n ns) = child (rewrite_node n) (rewrite_nodes ns)

  task_items : Nodes → Nodes
  task_items empty = empty
  task_items (child item items) = child (task_of item) (task_items items)

  task_of : Node → Node
  task_of (element kind (child paragraph rest) marks) = task_from paragraph (rewrite_nodes rest)
  task_of n = n
