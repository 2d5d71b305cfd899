-- ===== src/Tests/Codec.antt =====
-- A library of tokens that meets what is assumed of jose: a token is its payload, written out after
-- the key it was signed with.
use Prim.Native.Char.{Char, code}
use bartleby.Prelude.{
  ℕ, zero, suc, String, Bool, ◌==◌, ◌&&◌, ◌≡◌, refl, ap, Option, none, some, ltb, nat_eq,
  if◌then◌else◌, eq_self,
}
use bartleby.Auth.Session.{Payload, Jose}

abbrev more : Char
more = "x"

abbrev stop : Char
stop = "e"

pub write_text : String → String → String
write_text String.[] k = String.◌∷◌ stop k
write_text (String.◌∷◌ c s) k = String.◌∷◌ more (String.◌∷◌ c (write_text s k))

write_number : ℕ → String → String
write_number zero k = String.◌∷◌ stop k
write_number (suc n) k = String.◌∷◌ more (write_number n k)

write_option : Option String → String → String
unfolding write_text
write_option none k = String.◌∷◌ stop k
write_option (some s) k = String.◌∷◌ more (write_text s k)

abbrev grow : Char → Option (String × String) → Option (String × String)
grow c none = none
grow c (some (s, k)) = some (String.◌∷◌ c s, k)

abbrev is_stop : Char → Bool
is_stop c = nat_eq (code c) b'e'

pub read_text : String → Option (String × String)
read_text String.[] = none
read_text (String.◌∷◌ t String.[]) = if is_stop t then some ("", "") else none
read_text (String.◌∷◌ t (String.◌∷◌ c s)) =
    let rest = grow c (read_text s) in if is_stop t then some ("", String.◌∷◌ c s) else rest

abbrev next : Option (ℕ × String) → Option (ℕ × String)
next none = none
next (some (n, k)) = some (suc n, k)

read_number : String → Option (ℕ × String)
read_number String.[] = none
read_number (String.◌∷◌ t s) =
    let rest = next (read_number s) in if is_stop t then some (0, s) else rest

abbrev wrap : Option (String × String) → Option (Option String × String)
wrap none = none
wrap (some (s, k)) = some (some s, k)

read_option : String → Option (Option String × String)
unfolding read_text
read_option String.[] = none
read_option (String.◌∷◌ t s) = if is_stop t then some (none, s) else wrap (read_text s)

read_text-write_text : (s k : String) → read_text (write_text s k) ≡ some (s, k)
unfolding read_text write_text
read_text-write_text String.[] String.[] = refl
read_text-write_text String.[] (String.◌∷◌ c k) = refl
read_text-write_text (String.◌∷◌ c s) k = ap (grow c) (read_text-write_text s k)

read_number-write_number : (n : ℕ) (k : String) → read_number (write_number n k) ≡ some (n, k)
unfolding read_number write_number
read_number-write_number zero k = refl
read_number-write_number (suc n) k = ap next (read_number-write_number n k)

read_option-write_option :
    (o : Option String) (k : String) → read_option (write_option o k) ≡ some (o, k)
unfolding read_option write_option
read_option-write_option none k = refl
read_option-write_option (some s) k = ap wrap (read_text-write_text s k)

abbrev then_read :
    {A : Type 0}
    → (String → Option (A × String))
    → (A → String → Option Payload)
    → String
    → Option Payload
then_read read k s = elim (read s) [ none ↦ none | some (a, rest) ↦ k a rest ]

pub write_payload : Payload → String
unfolding write_option write_number
write_payload p = write_text p.iss (
    write_text p.aud (
      write_option p.sub (
        write_option p.jti (
          write_option p.email (
            write_option p.display_name
              (write_option p.color (write_number p.iat (write_number p.exp ""))))))))

read_payload : String → Option Payload
unfolding read_option read_number
read_payload = then_read read_text λ iss. then_read read_text λ aud. then_read read_option λ sub.
    then_read read_option λ jti. then_read read_option λ email. then_read read_option λ name.
      then_read read_option λ color. then_read read_number λ iat. then_read read_number λ exp rest.
        some (record {
          iss = iss;
          aud = aud;
          sub = sub;
          jti = jti;
          email = email;
          display_name = name;
          color = color;
          iat = iat;
          exp = exp;
        })

read_payload-write_payload : (p : Payload) → read_payload (write_payload p) ≡ some p
unfolding read_payload write_payload
read_payload-write_payload p =
    let t9 = write_number p.exp "" in
    let t8 = write_number p.iat t9 in
    let t7 = write_option p.color t8 in
    let t6 = write_option p.display_name t7 in
    let t5 = write_option p.email t6 in
    let t4 = write_option p.jti t5 in
    let t3 = write_option p.sub t4 in
    let t2 = write_text p.aud t3 in
    rw
      (
        then_read,
        read_text-write_text p.iss t2,
        read_text-write_text p.aud t3,
        read_option-write_option p.sub t4,
        read_option-write_option p.jti t5,
        read_option-write_option p.email t6,
        read_option-write_option p.display_name t7,
        read_option-write_option p.color t8,
        read_number-write_number p.iat t9,
        read_number-write_number p.exp "",
      )
      refl

unfoldable pub accept : String → String → ℕ → Payload → Option Payload
accept iss aud now p = if p.iss == iss && p.aud == aud && ltb now p.exp then some p else none

verify_payload : String → String → ℕ → Option Payload → Option Payload
unfolding accept
verify_payload iss aud now none = none
verify_payload iss aud now (some p) = accept iss aud now p

pub verify_signed : String → String → String → ℕ → Option (String × String) → Option Payload
unfolding verify_payload read_payload
verify_signed key iss aud now none = none
verify_signed key iss aud now (some (k, rest)) =
    if k == key then verify_payload iss aud now (read_payload rest) else none

pub signed_verifies :
    (key iss aud : String) (now : ℕ) (p : Payload)
    → verify_signed key iss aud now (read_text (write_text key (write_payload p)))
      ≡ accept iss aud now p
unfolding verify_signed
signed_verifies key iss aud now p =
    rw
      (
        read_text-write_text key (write_payload p),
        verify_signed,
        eq_self key,
        read_payload-write_payload p,
      )
      refl

unfoldable pub plain_jose : Jose
unfolding write_payload verify_signed
plain_jose = record {
  sign = λ key p. write_text key (write_payload p);
  verify = λ key iss aud now token. verify_signed key iss aud now (read_text token);
  verify-sign = signed_verifies;
}
