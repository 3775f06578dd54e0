-- ===== src/Wishlist/Refined.antt =====
-- The service as operations on the list of the products that a user wishes for.
use prime_pizza_backend.Base.{
  ℕ, ◌≡◌, refl, sym, ap, ◌∙◌, inl, inr, true, false, some, is_some, Option-cases,
}
use prime_pizza_backend.Base.Exec.{ok, err}
use prime_pizza_backend.Errors.{AppException, status_code}
use prime_pizza_backend.Catalog.{get_product}
use prime_pizza_backend.Models.{WishlistItem, Wishlist}
use prime_pizza_backend.Store.{World, commit}
use prime_pizza_backend.Wishlist.{
  wishlist_of, get_item, save_wishlist, to_response, with_item, without_item, emptied,
}
use prime_pizza_backend.Wishlist.Kept.{wishes, wished, IsKeyed, Opened, opened, saved}
use prime_pizza_backend.Wishlist.Calls.{
  WishCall, list_call, add_call, remove_call, clear_call, wish_call, is_wished, Distinct, specified,
  displayed, ids, Refines,
}
use prime_pizza_backend.Wishlist.Ids.{
  wished-item, ids-append, ids-emptied, ids-removed, Distinct-append, Distinct-keep,
  to_response-shown,
}
use prime_pizza_backend.Wishlist.Runs.{
  add_unknown, add_twice, answer_run, answer_loaded_run, add_new, remove_missing, remove_found,
  clear_run, list_run,
}

-- A call that writes the changed list `l'` and answers with the items of `r`.
written :
    (u : ℕ) (c : WishCall) (w w1 : World) (l l' r : Wishlist)
    → Opened u w w1 l
    → l'.id ≡ l.id
    → l'.user_id ≡ l.user_id
    → l'.deleted ≡ l.deleted
    → Distinct (ids l'.items)
    → specified w.db.catalog c (wished w u) ≡ ok (ids l'.items)
    → ids r.items ≡ displayed c (wished w u) (ids l'.items)
    → let w2 = (commit (save_wishlist l' w1)).1 in
      (wishlist_of w2.db.wishlists u ≡ some l'
        → wish_call u c w ≡ (ok (to_response w2.db.catalog r), w2))
      → Refines u c w
written u c w w1 l l' r o i us d distinct spec display run =
    let w2 = (commit (save_wishlist l' w1)).1 in
    let s = saved u w1 l l' o.is_keyed o.is_there i us d in
    let run' = run s.is_there in
    let list : wished w2 u ≡ ids l'.items = ap wishes s.is_there in
    record {
      meets =
          rw (spec, run')
            (to_response w2.db.catalog r, refl, to_response-shown w2.db.catalog r ∙ display, list);
      others = λ other ne. rw run' (s.others other ne ∙ o.all_kept other);
      is_committed = rw run';
      is_keyed = rw run' s.is_keyed;
      is_distinct = rw (run', list) distinct;
    }

-- A call that is refused after the list was opened.
refused :
    (u : ℕ) (c : WishCall) (w w1 : World) (e : AppException) (code : ℕ)
    → specified w.db.catalog c (wished w u) ≡ err code
    → wish_call u c w ≡ (err e, w1)
    → status_code e ≡ code
    → w1.committed ≡ w1.db
    → IsKeyed w1
    → ((other : ℕ) → wished w1 other ≡ wished w other)
    → Distinct (wished w u)
    → Refines u c w
refused u c w w1 e code spec run status fresh keyed kept distinct = record {
  meets = rw (spec, run) (e, refl, status, kept u);
  others = λ other ne. rw run (kept other);
  is_committed = rw run fresh;
  is_keyed = rw run keyed;
  is_distinct = rw (run, kept u) distinct;
}

add-Refines :
    (u p : ℕ) (w : World)
    → IsKeyed w
    → w.committed ≡ w.db
    → Distinct (wished w u)
    → Refines u (add_call p) w
unfolding wish_call get_item
add-Refines u p w k fresh d = elim (Option-cases (get_product w.db.catalog p)) [
  | inl unknown ↦
      let (e, run, status) = add_unknown u p w unknown in
      refused u (add_call p) w w e 404 (rw unknown) run status fresh k (λ _. refl) d
  | inr (x, known) ↦
      let (w1, l, o) = opened u w k in
      let list : wished w u ≡ ids l.items = sym (o.all_kept u) ∙ ap wishes o.is_there in
      elim (Option-cases (get_item l p)) [
        | inl new ↦
            let absent : is_wished p (ids l.items) ≡ false =
              wished-item p l.items ∙ ap is_some new in
            let item : WishlistItem = record {
              product_id = p;
              created_at = w1.now;
              deleted = false;
            } in
            written u (add_call p) w w1 l (with_item p w1.now l) l o refl refl refl
              (rw (ids-append item l.items refl)
                (Distinct-append p (ids l.items) (rw list at d) absent))
              (rw (known, list, absent, ids-append item l.items refl)) (sym list)
              (λ there. add_new u p w w1 x l known o.run new ∙ answer_loaded_run u _ l _ there)
        | inr (i, old) ↦
            let there : is_wished p (wished w u) ≡ true =
              ap (is_wished p) list ∙ wished-item p l.items ∙ ap is_some old in
            let (e, run, status) = add_twice u p w w1 x l i known o.run old in
            refused u (add_call p) w w1 e 409 (rw (known, there)) run status (o.is_committed fresh)
              o.is_keyed o.all_kept d
      ]
]

remove-Refines :
    (u p : ℕ) (w : World)
    → IsKeyed w
    → w.committed ≡ w.db
    → Distinct (wished w u)
    → Refines u (remove_call p) w
unfolding wish_call get_item
remove-Refines u p w k fresh d =
    let (w1, l, o) = opened u w k in
    let list : wished w u ≡ ids l.items = sym (o.all_kept u) ∙ ap wishes o.is_there in
    elim (Option-cases (get_item l p)) [
      | inl missing ↦
          let absent : is_wished p (wished w u) ≡ false =
            ap (is_wished p) list ∙ wished-item p l.items ∙ ap is_some missing in
          let (e, run, status) = remove_missing u p w w1 l o.run missing in
          refused u (remove_call p) w w1 e 404 (rw absent) run status (o.is_committed fresh)
            o.is_keyed o.all_kept d
      | inr (i, found) ↦
          let there : is_wished p (ids l.items) ≡ true = wished-item p l.items ∙ ap is_some found in
          let gone = ids-removed p i l.items (rw list at d) (unfold get_item in found) in
          written u (remove_call p) w w1 l (without_item p i l) (without_item p i l) o refl refl
            refl (rw gone (Distinct-keep _ (ids l.items) (rw list at d))) (rw (list, there, gone))
            refl (λ is_there. remove_found u p w w1 l i o.run found ∙ answer_run u _ _ is_there)
    ]

-- For a user whose list has no product twice, and at the start of a request: every call of the
-- service does what it should to the list of the user's products. Listing leaves it; adding puts a
-- known product that is not yet there at its end; removing takes a product that is there out;
-- clearing empties it. A call that is refused (404 for a product that is not known or not there, 409
-- for one that is there) leaves it. The answer to listing, removing and clearing shows the new list,
-- and the answer to adding the list as it was before. The lists of all other users stay, everything
-- is committed, and no product is there twice.
pub wish_call-Refines :
    (user_id : ℕ) (c : WishCall) (w : World)
    → IsKeyed w
    → w.committed ≡ w.db
    → Distinct (wished w user_id)
    → Refines user_id c w
unfolding wish_call
wish_call-Refines u list_call w k fresh d =
    let (w1, l, o) = opened u w k in
    let run = list_run u w w1 l o.run in
    let there : wished w1 u ≡ ids l.items = ap wishes o.is_there in
    record {
      meets = rw run (
        to_response w1.db.catalog l,
        refl,
        to_response-shown w1.db.catalog l ∙ sym there ∙ o.all_kept u,
        o.all_kept u,
      );
      others = λ other ne. rw run (o.all_kept other);
      is_committed = rw run (o.is_committed fresh);
      is_keyed = rw run o.is_keyed;
      is_distinct = rw (run, o.all_kept u) d;
    }
wish_call-Refines u (add_call p) w k fresh d = add-Refines u p w k fresh d
wish_call-Refines u (remove_call p) w k fresh d = remove-Refines u p w k fresh d
wish_call-Refines u clear_call w k fresh d =
    let (w1, l, o) = opened u w k in
    written u clear_call w w1 l (emptied l) (emptied l) o refl refl refl
      (rw (ids-emptied l.items) tt) (rw (ids-emptied l.items)) refl
      (λ there. clear_run u w w1 l o.run ∙ answer_run u _ _ there)
