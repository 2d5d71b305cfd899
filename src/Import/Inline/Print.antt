-- ===== src/Import/Inline/Print.antt =====
-- Proofs about the nodes that `splitText` makes (server/src/import/parser.ts).
use Prim.Native.String
use Prim.Native.String.{count}
use text.Mathlib.TextLemmas.{nil-append, cons-append, append-nil, length-cons}
use mathlib.Core.List.Permᴰ
use bartleby.Prelude.{
  ℕ, zero, suc, ◌+◌, ◌-◌, ◌≤◌, String, true, ◌≡◌, refl, sym, ap, ◌∙◌, List, [], ◌∷◌, arith, All,
  Bool-cases, inl, inr, leb, ltb,
}
use bartleby.Text.{take_text, drop_text, is_empty}
use bartleby.Sql.{asc}
use bartleby.Sql.Sort.{insertion_sort, insertion_sort-perm}
use bartleby.Sql.Permute.{All-perm}
use bartleby.Import.Document.{Nodes, text_node, element, empty, child}
use bartleby.Import.Inline.{Fragment, find_hits, drop_overlaps, cut, split_text}
use bartleby.Import.Inline.Hits.{
  print_kind, slice, IsFaithful, find_hits-IsFaithful, drop_text_twice,
}

-- The text of inline nodes, with backlinks and mentions as they are written.
abbrev pub print : Nodes → String
print empty = ""
print (child (text_node s marks) ns) = String.◌++◌ s (print ns)
print (child (element kind inner marks) ns) = String.◌++◌ (print_kind kind) (print ns)

-- Hits that can be cut out one after the other, from `pos` on.
abbrev IsCut : String → ℕ → List Fragment → Type 0
IsCut s pos [] = Unit
IsCut s pos (h ∷ hits) = (pos ≤ h.start) × IsFaithful s h × IsCut s h.end hits

drop_overlaps-IsCut :
    (s : String) (cursor : ℕ) (hits : List Fragment)
    → All (IsFaithful s) hits
    → IsCut s cursor (drop_overlaps cursor hits)
unfolding drop_overlaps
drop_overlaps-IsCut s cursor [] h = tt
drop_overlaps-IsCut s cursor (f ∷ hits) h = elim (Bool-cases (leb cursor f.start)) [
  | inl fits ↦ rw fits (ground arith, h.0, drop_overlaps-IsCut s f.end hits h.1)
  | inr overlaps ↦ rw overlaps (drop_overlaps-IsCut s cursor hits h.1)
]

take_text-drop_text : (n : ℕ) (s : String) → s ≡ String.◌++◌ (take_text n s) (drop_text n s)
take_text-drop_text zero s = sym (nil-append s)
take_text-drop_text (suc n) String.[] = sym (nil-append String.[])
take_text-drop_text (suc n) (String.◌∷◌ c s) =
    ap (String.◌∷◌ c) (take_text-drop_text n s)
    ∙ sym (cons-append c (take_text n s) (drop_text n s))

drop_all : (n : ℕ) (s : String) → count s ≤ n → drop_text n s ≡ String.[]
drop_all zero String.[] h = refl
drop_all zero (String.◌∷◌ c s) h = ground (arith, length-cons c s)
drop_all (suc n) String.[] h = refl
drop_all (suc n) (String.◌∷◌ c s) h = drop_all n s (omega (arith, length-cons c s))

-- A text is its slice up to a place and the rest.
drop_text-slice :
    (s : String) (a b : ℕ) → a ≤ b → String.◌++◌ (slice s a b) (drop_text b s) ≡ drop_text a s
drop_text-slice s a b h =
    let sum : b ≡ a + (b - a) = omega (arith, h) in
    ap (λ n. String.◌++◌ (slice s a b) (drop_text n s)) sum
    ∙ ap (String.◌++◌ (slice s a b)) (drop_text_twice a (b - a) s)
    ∙ sym (take_text-drop_text (b - a) (drop_text a s))

-- A span with the rest behind it.
span_and_rest :
    (s : String) (f : Fragment)
    → IsFaithful s f
    → String.◌++◌ (print_kind f.kind) (drop_text f.end s) ≡ drop_text f.start s
span_and_rest s f faithful =
    ap (λ t. String.◌++◌ t (drop_text f.end s)) (sym faithful.printed)
    ∙ drop_text-slice s f.start f.end faithful.ordered

print-cut :
    (s : String) (marks : List String) (pos : ℕ) (hits : List Fragment)
    → IsCut s pos hits
    → print (cut s marks pos hits) ≡ drop_text pos s
unfolding cut
print-cut s marks pos [] h = elim (Bool-cases (ltb pos (count s))) [
  | inl more ↦ rw more (append-nil (drop_text pos s))
  | inr all ↦ rw all (sym (drop_all pos s (ground arith)))
]
print-cut s marks pos (f ∷ hits) (le, faithful, h) =
    let rest = print-cut s marks f.end hits h in
    elim (Bool-cases (ltb pos f.start)) [
      | inl gap ↦ rw (gap, rest, span_and_rest s f faithful) (drop_text-slice s pos f.start le)
      | inr none_left ↦
          rw (none_left, rest, span_and_rest s f faithful) (ap (λ n. drop_text n s) (ground arith))
    ]

-- Splitting an imported text into plain text, backlinks and mentions loses nothing: printed again,
-- a backlink as its title in double square brackets and a mention as its e-mail after an at sign,
-- the nodes give the text, whatever matches overlap.
pub print-split_text : (s : String) (marks : List String) → print (split_text s marks) ≡ s
unfolding split_text
print-split_text s marks = elim (Bool-cases (is_empty s)) [
  | inl none_there ↦ rw none_there (sym (empty_text s none_there))
  | inr given ↦ rw given (
      print-cut s marks 0 (drop_overlaps 0 (insertion_sort (asc (λ h. h.start)) (find_hits s))) (
        drop_overlaps-IsCut s 0 _
          (All-perm _ (Permᴰ.symm (insertion_sort-perm _ (find_hits s))) (find_hits-IsFaithful s))))
]
  where
    empty_text : (t : String) → is_empty t ≡ true → t ≡ ""
    empty_text String.[] e = refl
    empty_text (String.◌∷◌ c t) e = cc
