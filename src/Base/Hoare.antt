-- ===== src/Base/Hoare.antt =====
-- Computations that keep an invariant of the state, also when they raise.
use mathlib.Core.Path.{◌≡◌, refl, sym}
use mathlib.Core.Bool.{Bool, false}
use mathlib.Core.Option.{Option, none, some}
use prime_pizza_backend.Base.Tests.{if◌then◌else◌}
use native.Mathlib.Omega.{arith}
use prime_pizza_backend.Base.Exec.{
  Exec, Result, ok, err, pure, or_raise, raise_if, ok-injective, ◌>>=◌,
}

module _ {S E : Type 0} (I : S → Type 0) where
  -- A run after which the invariant holds, and whose result has a property.
  abbrev pub Good : {A : Type 0} → (A → Type 0) → Result E A × S → Type 0
  Good Q p = I p.1 × ((a : _) → p.0 ≡ ok a → Q a)

  pub record Safe {A : Type 0} (Q : A → Type 0) (m : Exec S E A) : Type 0 where
    pub run : (s : S) → I s → Good Q (m s)

  Good-bind :
      {A B : Type 0} (Q : A → Type 0) (R : B → Type 0) (p : Result E A × S) (k : A → Exec S E B)
      (s : S)
      → Good Q p
      → ((a : A) → Q a → Safe R (k a))
      → Good R (((λ _. p) >>= k) s)
  Good-bind Q R (ok a, t) k s (kept, q) hk = (hk a (q a refl)).run t kept
  Good-bind Q R (err x, t) k s (kept, q) hk = (kept, λ b e. ground arith)

  pub Safe-bind :
      {A B : Type 0} (Q : A → Type 0) (R : B → Type 0) (m : Exec S E A) (k : A → Exec S E B)
      → Safe Q m
      → ((a : A) → Q a → Safe R (k a))
      → Safe R (m >>= k)
  Safe-bind Q R m k hm hk = record { run = λ s h. Good-bind Q R (m s) k s (hm.run s h) hk }

  -- One that leaves the state alone.
  pub Safe-read :
      {A : Type 0} (Q : A → Type 0) (f : S → Result E A)
      → ((s : S) (a : A) → f s ≡ ok a → Q a)
      → Safe Q (λ s. (f s, s))
  Safe-read Q f h = record { run = λ s i. (i, λ a e. h s a e) }

  pub Safe-pure : {A : Type 0} (Q : A → Type 0) (a : A) → Q a → Safe Q (pure {E = E} a)
  Safe-pure Q a q = record { run = λ s i. (i, λ b e. rw (sym (ok-injective a b e)) q) }

  raise_if-ok : (b : Bool) (e : E) (u : Unit {0}) → (if b then err e else ok tt) ≡ ok u → b ≡ false
  raise_if-ok b e u h = ground arith

  pub Safe-raise_if : (b : Bool) (e : E) → Safe (λ _. b ≡ false) (raise_if b e)
  Safe-raise_if b e = record { run = λ s i. (i, λ u h. raise_if-ok b e u h) }

  ask-Good :
      {A : Type 0} (o : Option A) (e : E) (s : S)
      → I s
      → Good (λ (_ : A). Unit {0}) (or_raise o e s)
  ask-Good none e s i = (i, λ _ _. tt)
  ask-Good (some a) e s i = (i, λ _ _. tt)

  -- A query that may find nothing.
  pub Safe-ask :
      {A : Type 0} (f : S → Option A) (e : E) → Safe (λ (_ : A). Unit {0}) (λ s. or_raise (f s) e s)
  Safe-ask f e = record { run = λ s i. ask-Good (f s) e s i }
