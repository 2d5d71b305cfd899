-- ===== src/Mentions/Template/Escape.antt =====
-- Proofs about what a mention e-mail escapes (server/src/mentions/email-template.ts), against the
-- device page of server/src/auth/routes.ts.
use Prim.Native.Char.{Char, code}
use Prim.Native.String
use text.Mathlib.TextLemmas.{nil-append, append-nil, cons-append, append_assoc}
use bartleby.Prelude.{
  ℕ, String, ◌≡◌, refl, sym, ap, ◌∙◌, nat_eq, Bool-cases, inl, inr, if◌then◌else◌,
}
use bartleby.Export.Serializer.{substitute}
use bartleby.Auth.Page.{entity}
use bartleby.Auth.Page
use bartleby.Mentions.Template.{escape_html}

substitute-append :
    (k : ℕ) (by s t : String)
    → substitute k by (String.◌++◌ s t) ≡ String.◌++◌ (substitute k by s) (substitute k by t)
unfolding substitute
substitute-append k by String.[] t = rw (nil-append t, nil-append (substitute k by t)) refl
substitute-append k by (String.◌∷◌ c s) t =
    rw
      (
        cons-append c s t,
        substitute-append k by s t,
        append_assoc (if nat_eq (code c) k then by else String.◌∷◌ c "") (substitute k by s)
            (substitute k by t),
      )
      refl

-- One character.
substitute_one :
    (k : ℕ) (by : String) (c : Char)
    → substitute k by (String.◌∷◌ c "") ≡ (if nat_eq (code c) k then by else String.◌∷◌ c "")
unfolding substitute
substitute_one k by c = append-nil (if nat_eq (code c) k then by else String.◌∷◌ c "")

escape_html-append :
    (s t : String) → escape_html (String.◌++◌ s t) ≡ String.◌++◌ (escape_html s) (escape_html t)
unfolding escape_html
escape_html-append s t =
    let amp = substitute b'&' "&amp;" in
    let less = substitute b'<' "&lt;" in
    let more = substitute b'>' "&gt;" in
    let double = substitute 34 "&quot;" in
    ap (λ x. substitute 39 "&#39;" (double (more (less x)))) (substitute-append b'&' "&amp;" s t)
    ∙ ap (λ x. substitute 39 "&#39;" (double (more x)))
        (substitute-append b'<' "&lt;" (amp s) (amp t))
    ∙ ap (λ x. substitute 39 "&#39;" (double x))
        (substitute-append b'>' "&gt;" (less (amp s)) (less (amp t)))
    ∙ ap (substitute 39 "&#39;")
        (substitute-append 34 "&quot;" (more (less (amp s))) (more (less (amp t))))
    ∙ substitute-append 39 "&#39;" (double (more (less (amp s)))) (double (more (less (amp t))))

module _ (c : Char) where
  escape_one : escape_html (String.◌∷◌ c "") ≡ entity c
  unfolding escape_html
  escape_one = elim (Bool-cases (nat_eq (code c) b'&')) [
    | inl amp ↦ rw (substitute_one b'&' "&amp;" c, amp) refl
    | inr a ↦
        rw (substitute_one b'&' "&amp;" c, a)
          (elim (Bool-cases (nat_eq (code c) b'<')) [
            | inl less ↦ rw (substitute_one b'<' "&lt;" c, less) refl
            | inr b ↦
                rw (substitute_one b'<' "&lt;" c, b)
                  (elim (Bool-cases (nat_eq (code c) b'>')) [
                    | inl more ↦ rw (substitute_one b'>' "&gt;" c, more) refl
                    | inr d ↦
                        rw (substitute_one b'>' "&gt;" c, d)
                          (elim (Bool-cases (nat_eq (code c) 34)) [
                            | inl double ↦ rw (substitute_one 34 "&quot;" c, double) refl
                            | inr e ↦
                                rw (substitute_one 34 "&quot;" c, e) (substitute_one 39 "&#39;" c)
                          ])
                  ])
          ])
  ]

  escape_html_cons :
      (s : String) → escape_html (String.◌∷◌ c s) ≡ String.◌++◌ (entity c) (escape_html s)
  escape_html_cons s =
      let split : String.◌∷◌ c s ≡ String.◌++◌ (String.◌∷◌ c "") s =
        sym (cons-append c "" s ∙ ap (String.◌∷◌ c) (nil-append s)) in
      ap escape_html split
      ∙ escape_html-append (String.◌∷◌ c "") s
      ∙ ap (λ x. String.◌++◌ x (escape_html s)) escape_one

-- The escaping of the mention e-mails, which replaces one character after the other in the whole
-- text, gives what the device page gives, which replaces them all in one pass.
pub escape_html-page : (s : String) → escape_html s ≡ Page.escape_html s
unfolding escape_html Page.escape_html
escape_html-page String.[] = refl
escape_html-page (String.◌∷◌ c s) =
    escape_html_cons c s ∙ ap (String.◌++◌ (entity c)) (escape_html-page s)
