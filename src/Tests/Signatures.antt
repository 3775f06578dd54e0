-- ===== src/Tests/Signatures.antt =====
-- Signatures in plain text: a token is the list of its claims, and a salted password is the salt and
-- the password.
use prime_pizza_backend.Base.{
  ℕ, zero, suc, ◌*◌, ◌≡◌, refl, ap, ◌∙◌, Option, none, some, List, [], ◌∷◌, ◌++◌, arith, ltb,
  length, take, drop, if◌then◌else◌,
}
use prime_pizza_backend.Text.{Text, text_eq}
use prime_pizza_backend.Auth.Tokens.{Claims, Decoded, valid, expired_signature, jwt_error, Crypto}
use prime_pizza_backend.Auth.State.{one_second}
use prime_pizza_backend.Auth.Issued.{IsFaithful}

abbrev number : Option ℕ → ℕ
number none = 0
number (some n) = suc n

abbrev number_back : ℕ → Option ℕ
number_back zero = none
number_back (suc n) = some n

abbrev written : Text → List ℕ → List ℕ
written s rest = length s ∷ s ++ rest

abbrev written_some : Option Text → List ℕ → List ℕ
written_some none rest = 0 ∷ rest
written_some (some s) rest = suc (length s) ∷ s ++ rest

abbrev first : List ℕ → ℕ
first [] = 0
first (n ∷ l) = n

abbrev others : List ℕ → List ℕ
others [] = []
others (n ∷ l) = l

abbrev text_back : ℕ → List ℕ → Option Text
text_back zero l = none
text_back (suc n) l = some (take n l)

abbrev skip : ℕ → List ℕ → List ℕ
skip zero l = l
skip (suc n) l = drop n l

abbrev plain_encode : Claims → Text
plain_encode c =
    number c.sub
    ∷ number c.user_id
    ∷ c.iat
    ∷ number c.exp
    ∷ number c.jti
    ∷ written_some (some c.email)
        (written_some c.phone_number (written_some (some c.role) (written_some c.token_type [])))

abbrev text_or_empty : Option Text → Text
text_or_empty none = []
text_or_empty (some s) = s

abbrev texts_back : ℕ → List ℕ → List (Option Text)
texts_back zero l = []
texts_back (suc k) l = text_back (first l) (others l) ∷ texts_back k (skip (first l) (others l))

abbrev the : ℕ → List (Option Text) → Option Text
the n [] = none
the zero (o ∷ l) = o
the (suc n) (o ∷ l) = the n l

abbrev with_texts : ℕ → ℕ → ℕ → ℕ → ℕ → List (Option Text) → Decoded
with_texts sub user_id iat exp jti texts = valid record {
  sub = number_back sub;
  user_id = number_back user_id;
  email = text_or_empty (the 0 texts);
  phone_number = the 1 texts;
  role = text_or_empty (the 2 texts);
  token_type = the 3 texts;
  iat = iat;
  exp = number_back exp;
  jti = number_back jti;
}

abbrev claims_back : Text → Decoded
claims_back (sub ∷ user_id ∷ iat ∷ exp ∷ jti ∷ l) =
    with_texts sub user_id iat exp jti (texts_back 4 l)
claims_back _ = jwt_error

abbrev in_time : ℕ → Decoded → Decoded
in_time now (valid c) = elim c.exp [
  | none ↦ valid c
  | some exp ↦ if ltb now (exp * one_second) then valid c else expired_signature
]
in_time now expired_signature = expired_signature
in_time now jwt_error = jwt_error

abbrev pub plain : Crypto
plain = record {
  encode = plain_encode;
  decode = λ now token. in_time now (claims_back token);
  hashpw = λ salt password. salt ∷ password;
  checkpw = λ password hashed. text_eq password (others hashed);
}

number-back : (o : Option ℕ) → number_back (number o) ≡ o
number-back none = refl
number-back (some n) = refl

take-written : (s rest : List ℕ) → take (length s) (s ++ rest) ≡ s
take-written [] [] = refl
take-written [] (c ∷ rest) = refl
take-written (c ∷ s) rest = ap (λ t. c ∷ t) (take-written s rest)

drop-written : (s rest : List ℕ) → drop (length s) (s ++ rest) ≡ rest
drop-written [] [] = refl
drop-written [] (c ∷ rest) = refl
drop-written (c ∷ s) rest = drop-written s rest

texts-back :
    (o : Option Text) (k : ℕ) (rest : List ℕ)
    → texts_back (suc k) (written_some o rest) ≡ o ∷ texts_back k rest
texts-back none k rest = refl
texts-back (some s) k rest = rw (take-written s rest, drop-written s rest) refl

claims-back : (c : Claims) → claims_back (plain_encode c) ≡ valid c
claims-back c =
    let role = written_some (some c.role) (written_some c.token_type []) in
    let texts : texts_back 4 (written_some (some c.email) (written_some c.phone_number role))
        ≡ some c.email ∷ c.phone_number ∷ some c.role ∷ c.token_type ∷ [] =
      texts-back (some c.email) 3 (written_some c.phone_number role)
      ∙ ap (λ l. some c.email ∷ l) (texts-back c.phone_number 2 role)
      ∙ ap (λ l. some c.email ∷ c.phone_number ∷ l)
          (texts-back (some c.role) 1 (written_some c.token_type []))
      ∙ ap (λ l. some c.email ∷ c.phone_number ∷ some c.role ∷ l) (texts-back c.token_type 0 []) in
    ap (with_texts (number c.sub) (number c.user_id) c.iat (number c.exp) (number c.jti)) texts
    ∙ rw (number-back c.sub, number-back c.user_id, number-back c.exp, number-back c.jti) refl

pub plain-IsFaithful : IsFaithful plain
plain-IsFaithful c now exp e soon = ap (in_time now) (claims-back c) ∙ ground arith
