-- ===== src/Checkout/Stable.antt =====
-- Invariants that a checkout keeps until it drafts the order: it writes no coupon, order or order
-- number before.
pub mod Steps
pub mod Requests
use prime_pizza_backend.Base.{◌≡◌, refl, Bool, Option, none, some}
use prime_pizza_backend.Base.Exec.{or_raise, raise_if, ◌>>=◌}
use prime_pizza_backend.Base.Hoare.{Safe, Safe-bind}
use prime_pizza_backend.Errors.{AppException}
use prime_pizza_backend.Store.{Database, World, Service, rolled_back}

-- The tables that only the draft and the end of a checkout write.
pub record SameRows (d d' : Database) : Type 0 where
  pub coupon_tables : d'.coupon_tables ≡ d.coupon_tables
  pub orders : d'.orders ≡ d.orders
  pub sequences : d'.sequences ≡ d.sequences

pub SameRows-refl : (d : Database) → SameRows d d
SameRows-refl d = record { coupon_tables = refl; orders = refl; sequences = refl }

pub SameRows-of : (d d' : Database) → d' ≡ d → SameRows d d'
SameRows-of d d' e = rw e (SameRows-refl d)

pub record Stable (I : World → Type 0) : Type 0 where
  pub same : (w w' : World) → SameRows w.db w'.db → SameRows w.committed w'.committed → I w → I w'
  pub stored : (w : World) → I w → I (record w { committed = w.db })

pub untouched :
    (I : World → Type 0) (stable : Stable I) (w w' : World)
    → w'.db.coupon_tables ≡ w.db.coupon_tables
    → w'.db.orders ≡ w.db.orders
    → w'.db.sequences ≡ w.db.sequences
    → w'.committed ≡ w.committed
    → I w
    → I w'
untouched I stable w w' tables orders sequences committed h =
    stable.same w w' (record { coupon_tables = tables; orders = orders; sequences = sequences })
      (SameRows-of w.committed w'.committed committed) h

module _ (I : World → Type 0) where
  abbrev pub Keeps : {A : Type 0} → Service A → Type 0
  Keeps m = Safe I (λ _. Unit {0}) m

  pub Keeps-by : {A : Type 0} (m : Service A) → ((w : World) → I w → I (m w).1) → Keeps m
  Keeps-by m h = record { run = λ w i. (h w i, λ _ _. tt) }

  pub Keeps-bind :
      {A B : Type 0} (m : Service A) (k : A → Service B)
      → Keeps m
      → ((a : A) → Keeps (k a))
      → Keeps (m >>= k)
  Keeps-bind m k hm hk = Safe-bind I (λ _. Unit {0}) (λ _. Unit {0}) m k hm (λ a _. hk a)

  pub Keeps-raise_if : (b : Bool) (e : AppException) → Keeps (raise_if b e)
  Keeps-raise_if b e = Keeps-by (raise_if b e) (λ w h. h)

  pub ask_keeps :
      {A : Type 0} (o : Option A) (e : AppException) (w : World) → I w → I (or_raise o e w).1
  ask_keeps none e w h = h
  ask_keeps (some a) e w h = h

  pub Keeps-ask :
      {A : Type 0} (f : World → Option A) (e : AppException) → Keeps (λ w. or_raise (f w) e w)
  Keeps-ask f e = Keeps-by (λ w. or_raise (f w) e w) (λ w h. ask_keeps (f w) e w h)
