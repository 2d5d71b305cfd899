-- ===== src/Import/Document.antt =====
-- ProseMirror documents, as far as server/src/import/parser.ts looks into them. What the package
-- prosemirror-model keeps beside a node's type, such as a heading's level, is a text here.
use bartleby.Prelude.{String, Bool, List}

-- The type and the attributes of a node.
pub data Kind : Type 0 where
  plain : String → String → Kind
  backlink : String → String → Kind
  mention : String → String → Kind
  task_item : Bool → Kind

abbrev pub type_name : Kind → String
type_name (plain name attrs) = name
type_name (backlink target_id title) = "backlink"
type_name (mention email display_name) = "mention"
type_name (task_item checked) = "task_item"

mutual
  -- A text with its marks, or a node with its children and marks.
  pub data Node : Type 0 where
    text_node : String → List String → Node
    element : Kind → Nodes → List String → Node

  pub data Nodes : Type 0 where
    empty : Nodes
    child : Node → Nodes → Nodes

abbrev pub join : Nodes → Nodes → Nodes
join empty more = more
join (child n ns) more = child n (join ns more)
