-- ===== src/Derived/Tags/Spelling.antt =====
-- Proofs about which tags are kept (server/src/derived/tags.ts).
use bartleby.Prelude.{
  String, false, ◌≡◌, ◌==◌, refl, sym, ◌∙◌, ap, Option, none, some, List, [], ◌∷◌, arith, eq_iff,
  Bool-cases, Option-cases, inl, inr, if◌then◌else◌,
}
use bartleby.Sql.{find, insert, any}
use bartleby.Sql.Rows.{keyed, Distinct, Distinct-insert, find-insert}
use bartleby.Auth.Map.{Map, get, set}
use bartleby.Derived.Tags.{Yaml, values, add_tag, add_tags, candidates, extract_tags}

module _ (lower : String → String) where
  -- Each entry has its tag's lower case as the key.
  IsKeyed : Map String → Type 0
  IsKeyed [] = Unit
  IsKeyed ((k, v) ∷ seen) = (k ≡ lower v) × IsKeyed seen

  get-values :
      (k : String) (seen : Map String)
      → IsKeyed seen
      → get k seen ≡ find (keyed lower k) (values seen)
  unfolding get IsKeyed
  get-values k [] h = refl
  get-values k ((j, v) ∷ seen) h = rw (h.0, get-values k seen h.1) refl

  set-IsKeyed :
      (tag : String) (seen : Map String) → IsKeyed seen → IsKeyed (set (lower tag) tag seen)
  unfolding set IsKeyed
  set-IsKeyed tag [] h = (refl, tt)
  set-IsKeyed tag ((j, v) ∷ seen) h = elim (Bool-cases (j == lower tag)) [
    | inl same ↦ rw same (refl, h.1)
    | inr other ↦ rw other (h.0, set-IsKeyed tag seen h.1)
  ]

  values-set :
      (k v : String) (seen : Map String)
      → get k seen ≡ none
      → values (set k v seen) ≡ insert v (values seen)
  unfolding get set
  values-set k v [] e = refl
  values-set k v ((j, w) ∷ seen) e = elim (Bool-cases (j == k)) [
    | inl same ↦ cc (rw same at e)
    | inr other ↦ rw other (ap (◌∷◌ w) (values-set k v seen (rw other at e)))
  ]

  any-find :
      (k : String) (ts : List String)
      → find (keyed lower k) ts ≡ none
      → any (keyed lower k) ts ≡ false
  any-find k [] e = refl
  any-find k (t ∷ ts) e = ground (arith, any-find k ts)

  -- What is so before and after every round.
  record IsFaithful (seen : Map String) : Type 0 where
    keyed_by_case : IsKeyed seen
    distinct : Distinct lower (values seen)

  add_tag-IsFaithful :
      (tag : String) (seen : Map String) → IsFaithful seen → IsFaithful (add_tag lower tag seen)
  unfolding add_tag
  add_tag-IsFaithful tag seen h = elim (Option-cases (get (lower tag) seen)) [
    | inr (v, there) ↦ rw there h
    | inl absent ↦ rw absent (record {
      keyed_by_case = set-IsKeyed tag seen h.keyed_by_case;
      distinct = rw (values-set (lower tag) tag seen absent) (
          Distinct-insert lower tag (values seen)
            (any-find (lower tag) (values seen)
              (sym (get-values (lower tag) seen h.keyed_by_case) ∙ absent))
            h.distinct);
    })
  ]

  -- The tag kept for a key, after some of the tags.
  kept : String → List String → Option String → Option String
  kept k tags none = find (keyed lower k) tags
  kept k tags (some v) = some v

  find-add_tag :
      (k tag : String) (tags : List String) (seen : Map String)
      → IsFaithful seen
      → kept k tags (find (keyed lower k) (values (add_tag lower tag seen)))
        ≡ kept k (tag ∷ tags) (find (keyed lower k) (values seen))
  unfolding add_tag kept
  find-add_tag k tag tags seen h = elim (Option-cases (get (lower tag) seen)) [
    | inr (v, there) ↦ rw there (here v (sym (get-values (lower tag) seen h.keyed_by_case) ∙ there))
    | inl absent ↦
        rw (absent, values-set (lower tag) tag seen absent, find-insert lower k tag (values seen))
          (fresh (find (keyed lower k) (values seen)))
  ]
    where
      skips : (lower tag == k) ≡ false → (o : Option String) → kept k tags o ≡ kept k (tag ∷ tags) o
      skips other none = rw other refl
      skips other (some v) = refl

      here :
          (v : String)
          → find (keyed lower (lower tag)) (values seen) ≡ some v
          → kept k tags (find (keyed lower k) (values seen))
            ≡ kept k (tag ∷ tags) (find (keyed lower k) (values seen))
      here v e = elim (Bool-cases (lower tag == k)) [
        | inl same ↦
            rw ((sym (ap (λ j. find (keyed lower j) (values seen)) ((eq_iff _ k).0 same)) ∙ e)) refl
        | inr other ↦ skips other (find (keyed lower k) (values seen))
      ]

      fresh :
          (o : Option String)
          → kept k tags
              (elim o [ none ↦ (if lower tag == k then some tag else none) | some y ↦ some y ])
            ≡ kept k (tag ∷ tags) o
      fresh none = elim (Bool-cases (lower tag == k)) [
        | inl same ↦ rw same refl
        | inr other ↦ rw other refl
      ]
      fresh (some v) = refl

  find-add_tags :
      (k : String) (tags : List String) (seen : Map String)
      → IsFaithful seen
      → find (keyed lower k) (values (add_tags lower tags seen))
        ≡ kept k tags (find (keyed lower k) (values seen))
  unfolding add_tags kept
  find-add_tags k [] seen h = elim (Option-cases (find (keyed lower k) (values seen))) [
    | inl absent ↦ rw absent refl
    | inr (v, there) ↦ rw there refl
  ]
  find-add_tags k (tag ∷ tags) seen h =
      find-add_tags k tags (add_tag lower tag seen) (add_tag-IsFaithful tag seen h)
      ∙ find-add_tag k tag tags seen h

  add_tags-IsFaithful :
      (tags : List String) (seen : Map String)
      → IsFaithful seen
      → IsFaithful (add_tags lower tags seen)
  unfolding add_tags
  add_tags-IsFaithful [] seen h = h
  add_tags-IsFaithful (tag ∷ tags) seen h =
      add_tags-IsFaithful tags (add_tag lower tag seen) (add_tag-IsFaithful tag seen h)

  empty-IsFaithful : IsFaithful []
  unfolding IsKeyed
  empty-IsFaithful = record { keyed_by_case = tt; distinct = tt }

  -- The tags of a Markdown text differ in lower case, and for every lower-case key the first tag
  -- with it is the first candidate with it, so a tag keeps the spelling it has where it first
  -- stands.
  pub extract_tags-Distinct :
      (parse_yaml : String → Option Yaml) (markdown : String)
      → Distinct lower (extract_tags parse_yaml lower markdown)
        × ((k : String)
            → find (keyed lower k) (extract_tags parse_yaml lower markdown)
              ≡ find (keyed lower k) (candidates parse_yaml lower markdown))
  unfolding extract_tags kept
  extract_tags-Distinct parse_yaml markdown =
      let tags = candidates parse_yaml lower markdown in
      (
        (add_tags-IsFaithful tags [] empty-IsFaithful).distinct,
        λ k. find-add_tags k tags [] empty-IsFaithful,
      )
