-- ===== src/Import/Inline/Hits.antt =====
-- Proofs about the spans that `splitText` finds (server/src/import/parser.ts).
use Prim.Native.String
use Prim.Native.String.{count}
use text.Mathlib.TextLemmas.{append_assoc, length-append}
use bartleby.Prelude.{
  ℕ, zero, suc, ◌+◌, ◌-◌, ◌≤◌, String, ◌≡◌, refl, sym, ap, ◌∙◌, List, [], ◌∷◌, ◌++◌, arith, All,
  All-append,
}
use mathlib.Core.List.{append_assoc as assoc_list}
use bartleby.Text.{take_text, drop_text}
use bartleby.Regex.{Regex, chars, some_of, Cursor, Match}
use bartleby.Regex.Sound.{Matches}
use bartleby.Regex.Reading.{
  take-append, drop-append, Matches-Reading, between_read, IsPlain, IsPlain-groups, literal-Reading,
}
use bartleby.Regex.Hit.{IsHit, match_all-IsHit}
use bartleby.Derived.Links.{backlink, is_title_char}
use bartleby.Derived.Tags.{captured}
use bartleby.Import.Document.{Kind}
use bartleby.Import.Inline.{
  Fragment, backlink_hit, mention_hit, mention_re, prefix, email, each, find_hits,
}

-- How a backlink and a mention are written.
abbrev pub print_kind : Kind → String
print_kind (Kind.backlink target title) = String.◌++◌ "[[" (String.◌++◌ title "]]")
print_kind (Kind.mention email name) = String.◌++◌ "@" email
print_kind _ = ""

abbrev pub slice : String → ℕ → ℕ → String
slice s a b = take_text (b - a) (drop_text a s)

-- A span of the text that says what its node says.
pub record IsFaithful (s : String) (h : Fragment) : Type 0 where
  pub ordered : h.start ≤ h.end
  pub printed : slice s h.start h.end ≡ print_kind h.kind

abbrev title : Regex
title = some_of (chars is_title_char)

three_parts :
    (p n q r whole a c : String)
    → whole ≡ String.◌++◌ p a
    → a ≡ String.◌++◌ n c
    → c ≡ String.◌++◌ q r
    → whole ≡ String.◌++◌ (String.◌++◌ p (String.◌++◌ n q)) r
three_parts p n q r whole a c e f g =
    rw (e, f, g)
      (sym (append_assoc p (String.◌++◌ n q) r ∙ ap (String.◌++◌ p) (append_assoc n q r)))

-- What a match of the expression for backlinks is.
record IsLink (from to : Cursor) : Type 0 where
  name : String
  text : from.rest ≡ String.◌++◌ (print_kind (Kind.backlink "" name)) to.rest
  groups : to.groups ≡ from.groups ++ name ∷ []

match-IsLink : (from to : Cursor) → Matches backlink from to → IsLink from to
unfolding Matches IsPlain
match-IsLink from to (a, front, (b, (c, body, captured), back)) =
    let (e, g) = literal-Reading "[[" from a front in
    let (name, f) = Matches-Reading title a c body in
    let (e', g') = literal-Reading "]]" b to back in
    let plain = IsPlain-groups title a c (tt, tt) body in
    let rest : c.rest ≡ String.◌++◌ "]]" to.rest = ap (λ d. d.rest) captured ∙ e' in
    record {
      name = name;
      text = three_parts "[[" name "]]" to.rest from.rest a.rest c.rest e f rest;
      groups = g' ∙ sym (ap (λ d. d.groups) captured) ∙ rw (between_read a c name f, plain, g) refl;
    }

drop_text-nil : (n : ℕ) → drop_text n String.[] ≡ String.[]
drop_text-nil zero = refl
drop_text-nil (suc n) = refl

pub drop_text_twice : (a b : ℕ) (s : String) → drop_text (a + b) s ≡ drop_text b (drop_text a s)
drop_text_twice zero b s = ap (λ n. drop_text n s) (omega arith)
drop_text_twice (suc a) b String.[] = drop_text-nil (suc a + b) ∙ sym (drop_text-nil b)
drop_text_twice (suc a) b (String.◌∷◌ c s) =
    let sum : suc a + b ≡ suc (a + b) = omega arith in
    ap (λ n. drop_text n (String.◌∷◌ c s)) sum ∙ drop_text_twice a b s

-- A span that begins where `rest` does.
slice_at :
    (s : String) (i : ℕ) (rest t more : String)
    → rest ≡ drop_text i s
    → rest ≡ String.◌++◌ t more
    → slice s i (i + count t) ≡ t
slice_at s i rest t more place e =
    let size : i + count t - i ≡ count t = omega arith in rw (size, ← place, e) (take-append t more)

backlink_hit-IsFaithful :
    (s : String) (m : Match) → IsHit backlink s m → IsFaithful s (backlink_hit m)
backlink_hit-IsFaithful s m hit =
    let link = match-IsLink hit.from hit.to hit.matches in
    let written = print_kind (Kind.backlink "" link.name) in
    let read : m.text ≡ written = hit.read ∙ between_read hit.from hit.to written link.text in
    let name : m.groups ≡ link.name ∷ [] = hit.groups ∙ link.groups ∙ rw hit.fresh refl in
    record {
      ordered = omega arith;
      printed =
          rw (name, read)
            (slice_at s m.index hit.from.rest written hit.to.rest hit.place link.text);
    }

-- What a match of the expression for mentions is.
record IsMention (from to : Cursor) : Type 0 where
  before : String
  name : String
  mid : String
  head : from.rest ≡ String.◌++◌ before mid
  text : mid ≡ String.◌++◌ (String.◌++◌ "@" name) to.rest
  groups : to.groups ≡ from.groups ++ before ∷ name ∷ []

two_parts :
    (n r mid a : String)
    → mid ≡ String.◌++◌ "@" a
    → a ≡ String.◌++◌ n r
    → mid ≡ String.◌++◌ (String.◌++◌ "@" n) r
two_parts n r mid a e f = rw (e, f) (sym (append_assoc "@" n r))

two_groups :
    (gs hs : List String) (a b : String) → hs ≡ gs ++ a ∷ [] → hs ++ b ∷ [] ≡ gs ++ a ∷ b ∷ []
two_groups gs hs a b e = rw e (assoc_list gs (a ∷ []) (b ∷ []))

match-IsMention : (from to : Cursor) → Matches mention_re from to → IsMention from to
unfolding Matches IsPlain
match-IsMention from to (a, (b, front, first), (c, sign, (d, (e, body, second), (edge, stop)))) =
    let (before, f) = Matches-Reading prefix from b front in
    let (at, g) = literal-Reading "@" a c (c, sign, refl) in
    let (name, h) = Matches-Reading email c e body in
    let first_groups : a.groups ≡ from.groups ++ before ∷ [] =
      sym (ap (λ z. z.groups) first)
      ∙ rw (between_read from b before f, IsPlain-groups prefix from b (tt, tt) front) refl in
    let same : d ≡ to = stop in
    record {
      before = before;
      name = name;
      mid = b.rest;
      head = f;
      text =
          two_parts name to.rest b.rest c.rest (ap (λ z. z.rest) first ∙ at)
            (h ∙ ap (String.◌++◌ name) (ap (λ z. z.rest) second ∙ ap (λ z. z.rest) same));
      groups =
          sym (ap (λ z. z.groups) same)
          ∙ sym (ap (λ z. z.groups) second)
          ∙ rw
              (
                between_read c e name h,
                IsPlain-groups email c e ((tt, tt), (tt, ((tt, tt), (tt, (tt, (tt, tt)))))) body,
                g,
              )
              (two_groups from.groups a.groups before name first_groups);
    }

mention_hit-IsFaithful :
    (s : String) (m : Match) → IsHit mention_re s m → IsFaithful s (mention_hit m)
mention_hit-IsFaithful s m hit =
    let mention = match-IsMention hit.from hit.to hit.matches in
    let written = print_kind (Kind.mention mention.name "") in
    let names : m.groups ≡ mention.before ∷ mention.name ∷ [] =
      hit.groups ∙ mention.groups ∙ rw hit.fresh refl in
    let place : mention.mid ≡ drop_text (m.index + count mention.before) s =
      sym (drop-append mention.before mention.mid)
      ∙ ap (drop_text (count mention.before)) (sym mention.head ∙ hit.place)
      ∙ sym (drop_text_twice m.index (count mention.before) s) in
    let size : count written ≡ 1 + count mention.name = length-append "@" mention.name in
    let i = m.index + count mention.before in
    let end : i + 1 + count mention.name ≡ i + count written = omega (arith, size) in
    rw names (record {
      ordered = omega arith;
      printed =
          ap (slice s i) end ∙ slice_at s i mention.mid written hit.to.rest place mention.text;
    })

All-each :
    (P : Match → Type 0) (Q : Fragment → Type 0) (f : Match → Fragment) (ms : List Match)
    → ((m : Match) → P m → Q (f m))
    → All P ms
    → All Q (each f ms)
All-each P Q f [] h k = tt
All-each P Q f (m ∷ ms) h k = (h m k.0, All-each P Q f ms h k.1)

pub find_hits-IsFaithful : (s : String) → All (IsFaithful s) (find_hits s)
unfolding find_hits
find_hits-IsFaithful s =
    All-append _ _ _
      (All-each _ _ backlink_hit _ (backlink_hit-IsFaithful s) (match_all-IsHit backlink s))
      (All-each _ _ mention_hit _ (mention_hit-IsFaithful s) (match_all-IsHit mention_re s))
