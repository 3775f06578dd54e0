-- ===== src/Wishlist/Kept.antt =====
-- What a write of one user's wishlist leaves to every user.
use prime_pizza_backend.Base.{
  ℕ, ◌+◌, ◌<◌, ◌≡◌, ◌≢◌, refl, sym, inl, inr, false, ◌&&◌, Option, none, some, List, [], ◌∷◌, ◌++◌,
  map, arith, ◌==◌, find_first-holds, update_where, All, All-append, All-update_where,
  All-find_first, All-zip, eqb-ne, ap, ◌∙◌, Bool-cases, Option-cases, eqb→eq, eqb_refl,
  if◌then◌else◌,
}
use prime_pizza_backend.Base.Exec.{ok}
use prime_pizza_backend.Catalog.{alive}
use prime_pizza_backend.Models.{Wishlist}
use prime_pizza_backend.Store.{World, commit}
use prime_pizza_backend.Wishlist.{
  wishlist_of, save_wishlist, add_wishlist, get_or_create, live_wishes,
}

-- The products on a user's list, in order.
abbrev pub wishes : Option Wishlist → List ℕ
wishes none = []
wishes (some l) = map (λ i. i.product_id) (live_wishes l.items)

abbrev pub wished : World → ℕ → List ℕ
wished w user_id = wishes (wishlist_of w.db.wishlists user_id)

-- A key belongs to one user, and the next key to nobody.
pub record IsKeyed (w : World) : Type 0 where
  pub owner : ℕ → ℕ
  pub is_owned : All (λ (l : Wishlist). l.user_id ≡ owner l.id) w.db.wishlists
  pub is_old : All (λ (l : Wishlist). l.id < w.db.next_id) w.db.wishlists

pub wishlist_of-found :
    (ls : List Wishlist) (user_id : ℕ) (l : Wishlist)
    → wishlist_of ls user_id ≡ some l
    → (l.user_id ≡ user_id) × (l.deleted ≡ false)
unfolding wishlist_of
wishlist_of-found ls user_id l e =
    let h = find_first-holds (λ l. l.user_id == user_id && alive l.deleted) ls l e in
    (ground arith, ground arith)

pub wishlist_of-saved :
    (ls : List Wishlist) (user_id : ℕ) (l l' : Wishlist)
    → wishlist_of ls user_id ≡ some l
    → l'.id ≡ l.id
    → l'.user_id ≡ user_id
    → l'.deleted ≡ false
    → wishlist_of (update_where (λ x. x.id == l'.id) (λ _. l') ls) user_id ≡ some l'
unfolding wishlist_of
wishlist_of-saved [] user_id l l' e i u d = ground arith
wishlist_of-saved (x ∷ ls) user_id l l' e i u d = ground (arith, wishlist_of-saved ls user_id l l')

pub wishlist_of-other :
    (owner : ℕ → ℕ) (ls : List Wishlist) (other : ℕ) (l' : Wishlist)
    → All (λ (l : Wishlist). l.user_id ≡ owner l.id) ls
    → l'.user_id ≡ owner l'.id
    → l'.user_id ≢ other
    → wishlist_of (update_where (λ x. x.id == l'.id) (λ _. l') ls) other ≡ wishlist_of ls other
unfolding wishlist_of
wishlist_of-other owner [] other l' o e ne = refl
wishlist_of-other owner (x ∷ ls) other l' (o, os) e ne = elim (Bool-cases (x.id == l'.id)) [
  | inl hit ↦
      let same : x.user_id ≡ l'.user_id = o ∙ ap owner (eqb→eq x.id l'.id hit) ∙ sym e in
      ground (arith, wishlist_of-other owner ls other l' os e ne)
  | inr miss ↦ ground (arith, wishlist_of-other owner ls other l' os e ne)
]

pub wishlist_of-added :
    (ls : List Wishlist) (user_id other : ℕ) (l : Wishlist)
    → wishlist_of ls user_id ≡ none
    → l.user_id ≡ user_id
    → l.deleted ≡ false
    → wishlist_of (ls ++ l ∷ []) other ≡ (if user_id == other then some l else wishlist_of ls other)
unfolding wishlist_of
wishlist_of-added [] user_id other l e u d = ground arith
wishlist_of-added (x ∷ ls) user_id other l e u d =
    ground (arith, wishlist_of-added ls user_id other l)

-- What `get_or_create` answers, and the world after it.
pub record Opened (user_id : ℕ) (w w' : World) (l : Wishlist) : Type 0 where
  pub run : get_or_create user_id w ≡ (ok l, w')
  pub is_there : wishlist_of w'.db.wishlists user_id ≡ some l
  pub is_keyed : IsKeyed w'
  pub is_committed : w.committed ≡ w.db → w'.committed ≡ w'.db
  pub all_kept : (other : ℕ) → wished w' other ≡ wished w other

Opened-new :
    (user_id : ℕ) (w : World)
    → IsKeyed w
    → wishlist_of w.db.wishlists user_id ≡ none
    → (w' : World) × (l : Wishlist) × Opened user_id w w' l
unfolding get_or_create
Opened-new user_id w k e =
    let added = add_wishlist user_id w in
    let l : Wishlist = record {
      id = w.db.next_id;
      user_id = user_id;
      items = [];
      deleted = false;
    } in
    let there : wishlist_of added.db.wishlists user_id ≡ some l =
      rw (eqb_refl user_id) at (wishlist_of-added w.db.wishlists user_id user_id l e refl refl) in
    let owner : ℕ → ℕ = λ i. if i == w.db.next_id then user_id else k.owner i in
    (
      (commit added).1,
      l,
      record {
        run = ground (arith, there);
        is_there = there;
        is_committed = λ _. refl;
        is_keyed = record {
          owner = owner;
          is_owned =
              All-append (λ (l : Wishlist). l.user_id ≡ owner l.id) w.db.wishlists (l ∷ [])
                (All-zip _ _ (λ (l : Wishlist). l.user_id ≡ owner l.id) w.db.wishlists
                  (λ a o old.
                    rw (eqb-ne a.id w.db.next_id (λ same. absurd (omega (arith, same)))) o)
                  k.is_owned k.is_old)
                (rw (eqb_refl w.db.next_id), tt);
          is_old =
              All-append (λ (l : Wishlist). l.id < w.db.next_id + 1) w.db.wishlists (l ∷ [])
                (All-zip _ _ (λ (l : Wishlist). l.id < w.db.next_id + 1) w.db.wishlists
                  (λ a o old. omega arith) k.is_owned k.is_old)
                (omega arith, tt);
        };
        all_kept =
            λ other. ground (arith, wishlist_of-added w.db.wishlists user_id other l e refl refl);
      },
    )

pub opened :
    (user_id : ℕ) (w : World) → IsKeyed w → (w' : World) × (l : Wishlist) × Opened user_id w w' l
unfolding get_or_create
opened user_id w k = elim (Option-cases (wishlist_of w.db.wishlists user_id)) [
  | inl none_ ↦ Opened-new user_id w k none_
  | inr (l, found) ↦ (
    w,
    l,
    record {
      run = rw found;
      is_there = found;
      is_committed = λ h. h;
      is_keyed = k;
      all_kept = λ other. refl;
    },
  )
]

-- What is left when a changed list is written.
pub record Saved (user_id : ℕ) (l' : Wishlist) (w w' : World) : Type 0 where
  pub is_there : wishlist_of w'.db.wishlists user_id ≡ some l'
  pub is_keyed : IsKeyed w'
  pub others : (other : ℕ) → user_id ≢ other → wished w' other ≡ wished w other

pub saved :
    (user_id : ℕ) (w : World) (l l' : Wishlist)
    → IsKeyed w
    → wishlist_of w.db.wishlists user_id ≡ some l
    → l'.id ≡ l.id
    → l'.user_id ≡ l.user_id
    → l'.deleted ≡ l.deleted
    → Saved user_id l' w (commit (save_wishlist l' w)).1
saved user_id w l l' k found i u d =
    let at_l = wishlist_of-found w.db.wishlists user_id l found in
    let owns =
      All-find_first (λ (l : Wishlist). (l.user_id ≡ k.owner l.id) × (l.id < w.db.next_id))
        (λ l. l.user_id == user_id && alive l.deleted) w.db.wishlists l
        (All-zip _ _ _ w.db.wishlists (λ a o old. (o, old)) k.is_owned k.is_old)
        (unfold wishlist_of in found) in
    record {
      is_there = wishlist_of-saved w.db.wishlists user_id l l' found i (u ∙ at_l.0) (d ∙ at_l.1);
      is_keyed = record {
        owner = k.owner;
        is_owned =
            All-update_where (λ (l : Wishlist). l.user_id ≡ k.owner l.id) (λ x. x.id == l'.id)
              (λ _. l') w.db.wishlists (λ _ _. u ∙ owns.0 ∙ ap k.owner (sym i)) k.is_owned;
        is_old =
            All-update_where (λ (l : Wishlist). l.id < w.db.next_id) (λ x. x.id == l'.id) (λ _. l')
              w.db.wishlists (λ _ _. omega (arith, owns.1, i)) k.is_old;
      };
      others = λ other ne. ap wishes (
          wishlist_of-other k.owner w.db.wishlists other l' k.is_owned
            (u ∙ owns.0 ∙ ap k.owner (sym i)) (λ same. ne (sym at_l.0 ∙ sym u ∙ same)));
    }
