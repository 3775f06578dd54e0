-- ===== src/RateLimiting/Counted.antt =====
-- What a hit does to the counters of every key, and that a counter outlives its slot.
use prime_pizza_backend.Base.{
  ℕ, ◌+◌, ◌*◌, ◌/◌, ◌<◌, ◌≤◌, ◌≡◌, refl, inl, inr, true, false, not, ◌&&◌, Option, none, some, List,
  [], ◌∷◌, arith, ltb, ◌==◌, keep, find_first, find_first-holds, All, All-keep_of, All-find_first,
  if◌then◌else◌, Bool-cases, Option-cases,
}
use prime_pizza_backend.Text.{Text, text_eq_refl, eq_of_text_eq}
use prime_pizza_backend.RateLimiting.Policies.{PolicyName, same_policy, RateLimitPolicy}
use prime_pizza_backend.RateLimiting.Windows.{
  Window, minute, hour, burst_window, seconds, RateKey, same_key, RateCounter, RateWorld,
  live_counter, bumped, hit, hits, key_at,
}

pub same_policy_sound : (a b : PolicyName) → same_policy a b ≡ true → a ≡ b
same_policy_sound a b h = ground arith

window_sound : (a b : Window) → (seconds a == seconds b) ≡ true → a ≡ b
window_sound a b h = ground arith

pub same_key_sound : (a b : RateKey) → same_key a b ≡ true → a ≡ b
unfolding same_key
same_key_sound a b h = ground (
  arith,
  same_policy_sound a.policy b.policy,
  window_sound a.window b.window,
  eq_of_text_eq a.identity b.identity,
)

pub same_key_refl : (a : RateKey) → same_key a a ≡ true
unfolding same_key
same_key_refl a = ground (arith, text_eq_refl a.identity)

find-keep :
    (k j : RateKey) (now : ℕ) (l : List RateCounter)
    → same_key k j ≡ false
    → find_first
        (λ c. same_key c.key j && ltb now c.expires_at)
        (keep (λ c. not (same_key c.key k)) l)
      ≡ find_first (λ c. same_key c.key j && ltb now c.expires_at) l
find-keep k j now [] h = refl
find-keep k j now (c ∷ l) h = ground (arith, find-keep k j now l, same_key_sound c.key k)

live-found :
    (k : RateKey) (w : RateWorld) (c : RateCounter)
    → live_counter k w ≡ some c
    → w.now < c.expires_at
unfolding live_counter
live-found k w c e =
    ground
      (arith, find_first-holds (λ c. same_key c.key k && ltb w.now c.expires_at) w.counters c e)

window_pos : (x : Window) → 0 < seconds x
window_pos minute = omega arith
window_pos hour = omega arith
window_pos burst_window = omega arith

bumped-key : (k : RateKey) (w : RateWorld) (o : Option RateCounter) → (bumped k w o).key ≡ k
bumped-key k w none = refl
bumped-key k w (some c) = refl

hits-hit_other :
    (j k : RateKey) (w : RateWorld) → same_key k j ≡ false → hits j (hit k w) ≡ hits j w + 0
unfolding hits hit
hits-hit_other j k w other =
    ground (arith, find-keep k j w.now w.counters other, bumped-key k w (live_counter k w))

hits-hit_self : (k : RateKey) (w : RateWorld) → hits k (hit k w) ≡ hits k w + 1
unfolding hits hit
hits-hit_self k w = elim (Option-cases (live_counter k w)) [
  | inl none_ ↦ ground (arith, same_key_refl k, window_pos k.window)
  | inr (c, found) ↦ ground (arith, same_key_refl k, live-found k w c found)
]

pub hits-hit :
    (j k : RateKey) (w : RateWorld) → hits j (hit k w) ≡ hits j w + (if same_key k j then 1 else 0)
hits-hit j k w = elim (Bool-cases (same_key k j)) [
  | inl same ↦ let e = same_key_sound k j same in rw (same, e) (hits-hit_self j w)
  | inr other ↦ rw other (hits-hit_other j k w other)
]

-- A counter is kept at least to the end of its slot.
abbrev pub OutlivesSlot : RateCounter → Type 0
OutlivesSlot c = (c.key.slot + 1) * seconds c.key.window ≤ c.expires_at

abbrev pub IsTimed : RateWorld → Type 0
IsTimed w = All OutlivesSlot w.counters

pub slot_bound : (x : Window) (now slot : ℕ) → now / seconds x ≡ slot → now < (slot + 1) * seconds x
slot_bound minute now slot h = omega arith
slot_bound hour now slot h = omega arith
slot_bound burst_window now slot h = omega arith

slot_end : (x : Window) (now : ℕ) → (now / seconds x + 1) * seconds x ≤ now + seconds x
slot_end minute now = omega arith
slot_end hour now = omega arith
slot_end burst_window now = omega arith

bumped-OutlivesSlot :
    (policy : RateLimitPolicy) (identity : Text) (x : Window) (w : RateWorld)
    → IsTimed w
    → let k = key_at policy identity w.now x in OutlivesSlot (bumped k w (live_counter k w))
unfolding live_counter
bumped-OutlivesSlot policy identity x w t =
    let k = key_at policy identity w.now x in
    elim (Option-cases (live_counter k w)) [
      | inl none_ ↦ rw none_ (slot_end x w.now)
      | inr (c, found) ↦
          let old : OutlivesSlot c = All-find_first OutlivesSlot _ w.counters c t found in
          let same : c.key ≡ k = same_key_sound c.key k (
            ground (
              arith,
              find_first-holds (λ c. same_key c.key k && ltb w.now c.expires_at) w.counters c found,
            )) in
          rw found (rw same at old)
    ]

pub hit-IsTimed :
    (policy : RateLimitPolicy) (identity : Text) (x : Window) (w : RateWorld)
    → IsTimed w
    → IsTimed (hit (key_at policy identity w.now x) w)
unfolding hit
hit-IsTimed policy identity x w t =
    (bumped-OutlivesSlot policy identity x w t, All-keep_of OutlivesSlot _ w.counters t)

find-live :
    (k : RateKey) (now : ℕ) (l : List RateCounter)
    → All OutlivesSlot l
    → now < (k.slot + 1) * seconds k.window
    → find_first (λ c. same_key c.key k && ltb now c.expires_at) l
      ≡ find_first (λ c. same_key c.key k) l
find-live k now [] t h = refl
find-live k now (c ∷ l) (t, ts) h = elim (Bool-cases (same_key c.key k)) [
  | inl same ↦
      let e = same_key_sound c.key k same in
      let ends : (k.slot + 1) * seconds k.window ≤ c.expires_at = rw e at t in ground arith
  | inr other ↦ ground (arith, find-live k now l)
]

-- Time that passes within a key's slot takes no hit away.
pub hits-later :
    (k : RateKey) (d : ℕ) (w : RateWorld)
    → IsTimed w
    → w.now / seconds k.window ≡ k.slot
    → (w.now + d) / seconds k.window ≡ k.slot
    → hits k (record w { now = w.now + d }) ≡ hits k w
unfolding hits live_counter
hits-later k d w t before after = rw (
  find-live k w.now w.counters t (slot_bound k.window w.now k.slot before),
  find-live k (w.now + d) w.counters t (slot_bound k.window (w.now + d) k.slot after),
)
