-- ===== src/Base/Exec.antt =====
-- Service methods: state, and exceptions that keep what was written before they were raised.
use mathlib.Core.Path.{◌≡◌, refl}
use mathlib.Core.Bool.{Bool, true, false}
use mathlib.Core.Logic.{◌⊎◌, inl, inr}
use native.Mathlib.Omega.{arith}
use mathlib.Core.Option.{Option, none, some}
use prime_pizza_backend.Base.Tests.{if◌then◌else◌}

pub data Result (E A : Type 0) : Type 0 where
  ok : A → Result E A
  err : E → Result E A

abbrev pub Exec : Type 0 → Type 0 → Type 0 → Type 0
Exec S E A = S → Result E A × S

module _ {S E A : Type 0} where
  abbrev pub pure : A → Exec S E A
  pure a s = (ok a, s)

  abbrev pub raise : E → Exec S E A
  raise e s = (err e, s)

  abbrev pub gets : (S → A) → Exec S E A
  gets f s = (ok (f s), s)

  -- A computation that only reads.
  abbrev pub lift : Result E A → Exec S E A
  lift r s = (r, s)

  -- `if x is None: raise e`
  abbrev pub or_raise : Option A → E → Exec S E A
  or_raise none e s = (err e, s)
  or_raise (some a) _ s = (ok a, s)

module _ {S E : Type 0} where
  abbrev pub modify : (S → S) → Exec S E (Unit {0})
  modify f s = (ok tt, f s)

  -- `if b: raise e`
  abbrev pub raise_if : Bool → E → Exec S E (Unit {0})
  raise_if b e s = (if b then err e else ok tt, s)

infixl 5 ◌>>=◌ ◌>>◌
abbrev pub ◌>>=◌ : {S E A B : Type 0} → Exec S E A → (A → Exec S E B) → Exec S E B
◌>>=◌ m f s = let (r, s') = m s in elim r [ ok a ↦ f a s' | err e ↦ (err e, s') ]

abbrev pub ◌>>◌ : {S E B : Type 0} → Exec S E (Unit {0}) → Exec S E B → Exec S E B
m >> k = m >>= λ _. k

-- The rest of a computation that only reads.
abbrev pub chain : {E A B : Type 0} → Result E A → (A → Result E B) → Result E B
chain (ok a) f = f a
chain (err e) _ = err e

-- `if x is None: raise e`
abbrev pub some_or : {E A : Type 0} → Option A → E → Result E A
some_or none e = err e
some_or (some a) _ = ok a

-- `if b: raise e`, then the rest
abbrev pub unless : {E A : Type 0} → Bool → E → Result E A → Result E A
unless b e r = if b then err e else r

pub run-cases :
    {S E A : Type 0} (p : Result E A × S)
    → ((a : A) × (t : S) × (p ≡ (ok a, t))) ⊎ ((e : E) × (t : S) × (p ≡ (err e, t)))
run-cases (ok a, t) = inl (a, t, refl)
run-cases (err e, t) = inr (e, t, refl)

pub Result-cases :
    {E A : Type 0} (r : Result E A) → ((a : A) × (r ≡ ok a)) ⊎ ((e : E) × (r ≡ err e))
Result-cases (ok a) = inl (a, refl)
Result-cases (err e) = inr (e, refl)

pub bind-ok :
    {S E A B : Type 0} (m : Exec S E A) (k : A → Exec S E B) (s s' : S) (b : B)
    → (m >>= k) s ≡ (ok b, s')
    → (a : A) × (t : S) × (m s ≡ (ok a, t)) × (k a t ≡ (ok b, s'))
bind-ok m k s s' b h = elim (run-cases (m s)) [
  | inl (a, t, e) ↦ (a, t, e, ground arith)
  | inr (x, t, e) ↦ ground arith
]

pub chain-ok :
    {E A B : Type 0} (r : Result E A) (f : A → Result E B) (b : B)
    → chain r f ≡ ok b
    → (a : A) × (r ≡ ok a) × (f a ≡ ok b)
chain-ok (ok a) f b h = (a, refl, h)
chain-ok (err e) f b h = ground arith

pub ok-injective : {E A : Type 0} (a b : A) → let r : Result E A = ok a in r ≡ ok b → a ≡ b
ok-injective a b h = cc

pub unless-ok :
    {E A : Type 0} (b : Bool) (e : E) (r : Result E A) (a : A) → unless b e r ≡ ok a → r ≡ ok a
unless-ok true e r a h = ground arith
unless-ok false e r a h = h

pub ask-ok :
    {S E A B : Type 0} (o : Option A) (e : E) (k : A → Exec S E B) (s s' : S) (b : B)
    → (or_raise o e >>= k) s ≡ (ok b, s')
    → (a : A) × (o ≡ some a) × (k a s ≡ (ok b, s'))
ask-ok none e k s s' b h = ground arith
ask-ok (some a) e k s s' b h = (a, refl, h)

pub guard-ok :
    {S E B : Type 0} (t : Bool) (e : E) (m : Exec S E B) (s s' : S) (b : B)
    → (raise_if t e >> m) s ≡ (ok b, s')
    → (t ≡ false) × (m s ≡ (ok b, s'))
guard-ok true e m s s' b h = ground arith
guard-ok false e m s s' b h = (refl, h)

pub bind-run :
    {S E A B : Type 0} (m : Exec S E A) (k : A → Exec S E B) (s t : S) (a : A) (p : Result E B × S)
    → m s ≡ (ok a, t)
    → k a t ≡ p
    → (m >>= k) s ≡ p
bind-run m k s t a p e h = ground arith
