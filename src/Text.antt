-- ===== src/Text.antt =====
-- Python text as a list of code points, with the `str` methods that the services call on codes,
-- emails and tokens. Case is that of ASCII letters and white space is that of ASCII.
use Prim.Native.Char.{code}
use prime_pizza_backend.Base.{
  ℕ, ◌+◌, ◌-◌, String, ◌≡◌, refl, Bool, true, false, ◌&&◌, ◌||◌, List, [], ◌∷◌, map, arith, leb,
  ◌==◌, if◌then◌else◌,
}

abbrev pub Text : Type 0
Text = List ℕ

abbrev pub codes : String → Text
codes String.[] = []
codes (String.◌∷◌ c s) = code c ∷ codes s

-- `a == b`
unfoldable pub text_eq : Text → Text → Bool
text_eq [] [] = true
text_eq (a ∷ s) (b ∷ t) = a == b && text_eq s t
text_eq _ _ = false

unfoldable pub upper_code : ℕ → ℕ
upper_code c = if leb 97 c && leb c 122 then c - 32 else c

unfoldable pub lower_code : ℕ → ℕ
lower_code c = if leb 65 c && leb c 90 then c + 32 else c

-- `s.upper()`, `s.lower()`
unfoldable pub upper : Text → Text
unfolding upper_code
upper = map upper_code

unfoldable pub lower : Text → Text
unfolding lower_code
lower = map lower_code

unfoldable pub is_space : ℕ → Bool
is_space c = c == 32 || (leb 9 c && leb c 13) || (leb 28 c && leb c 31)

unfoldable pub lstrip : Text → Text
unfolding is_space
lstrip [] = []
lstrip (c ∷ s) = let rest = lstrip s in if is_space c then rest else c ∷ s

unfoldable pub rstrip : Text → Text
unfolding is_space
rstrip [] = []
rstrip (c ∷ s) = drop_if (rstrip s)
  where
    drop_if : Text → Text
    drop_if [] = if is_space c then [] else c ∷ []
    drop_if (d ∷ t) = c ∷ d ∷ t

-- `s.startswith(t)`, `t in s`, and `s.split(c)[0]` for a text of one code
unfoldable pub starts_with : Text → Text → Bool
starts_with s [] = true
starts_with [] (_ ∷ _) = false
starts_with (a ∷ s) (b ∷ t) = a == b && starts_with s t

unfoldable pub has_text : Text → Text → Bool
unfolding starts_with
has_text t [] = starts_with [] t
has_text t (a ∷ s) = starts_with (a ∷ s) t || has_text t s

unfoldable pub until_code : ℕ → Text → Text
until_code c [] = []
until_code c (a ∷ s) = let rest = until_code c s in if a == c then [] else a ∷ rest

-- `t in texts`
unfoldable pub text_in : Text → List Text → Bool
unfolding text_eq
text_in t [] = false
text_in t (s ∷ l) = text_eq t s || text_in t l

-- `s.strip()`
unfoldable pub strip : Text → Text
unfolding lstrip rstrip
strip s = rstrip (lstrip s)

pub text_eq_refl : (s : Text) → text_eq s s ≡ true
unfolding text_eq
text_eq_refl [] = refl
text_eq_refl (a ∷ s) = ground (arith, text_eq_refl s)

pub eq_of_text_eq : (s t : Text) → text_eq s t ≡ true → s ≡ t
unfolding text_eq
eq_of_text_eq [] [] h = refl
eq_of_text_eq [] (b ∷ t) h = ground arith
eq_of_text_eq (a ∷ s) [] h = ground arith
eq_of_text_eq (a ∷ s) (b ∷ t) h = ground (arith, eq_of_text_eq s t)

pub upper_code_idem : (c : ℕ) → upper_code (upper_code c) ≡ upper_code c
unfolding upper_code
upper_code_idem c = ground arith

pub upper_idem : (s : Text) → upper (upper s) ≡ upper s
unfolding upper
upper_idem [] = refl
upper_idem (c ∷ s) = unfold upper in cc (upper_code_idem c, upper_idem s)

pub lower_code_idem : (c : ℕ) → lower_code (lower_code c) ≡ lower_code c
unfolding lower_code
lower_code_idem c = ground arith

pub lower_idem : (s : Text) → lower (lower s) ≡ lower s
unfolding lower
lower_idem [] = refl
lower_idem (c ∷ s) = cc (lower_code_idem c, lower_idem s)
