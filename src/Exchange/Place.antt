-- ===== src/Exchange/Place.antt =====
-- The writes to one side map of src/order_book.cpp, as writes to the list of its orders.
use leviathan_matching_engin.Prelude.{
  ℕ, ◌≤◌, ◌≡◌, refl, ap, sym, true, false, List, [], ◌∷◌, ◌++◌, arith, All, Bool-cases, inl, inr,
  append_assoc, subst,
}
use leviathan_matching_engin.Price.{Comparator}
use leviathan_matching_engin.Order.{Side, Order}
use leviathan_matching_engin.Resting.{
  count_id, Insertion, here, there, Requantified, set_here, set_there,
}
use leviathan_matching_engin.Levels.{Levels, orders, push_back}
use leviathan_matching_engin.Levels.Ladder.{Belongs, Above, IsLadder, Above-trans}
use leviathan_matching_engin.Exchange.{place, remove_id, requantify}

module _ {P : Type 0} where
  pub remove_id-missing : (i : ℕ) (xs : List (Order P)) → count_id i xs ≡ 0 → remove_id i xs ≡ xs
  remove_id-missing i [] h = refl
  remove_id-missing i (x ∷ xs) h = ground (arith, remove_id-missing i xs)

  pub requantify-missing :
      (i n : ℕ) (xs : List (Order P)) → count_id i xs ≡ 0 → requantify i n xs ≡ xs
  requantify-missing i n [] h = refl
  requantify-missing i n (x ∷ xs) h = ground (arith, requantify-missing i n xs)

  pub Insertion-remove_id :
      {o : Order P} {xs ys : List (Order P)}
      → Insertion o xs ys
      → count_id o.id xs ≡ 0
      → remove_id o.id ys ≡ xs
  Insertion-remove_id (here os) h = ground arith
  Insertion-remove_id (there x n) h = ground (arith, Insertion-remove_id n)

  pub Requantified-count_pos :
      {i n : ℕ} {xs ys : List (Order P)} → Requantified i n xs ys → 1 ≤ count_id i ys
  Requantified-count_pos (set_here o os e) = ground arith
  Requantified-count_pos (set_there x r) = omega (arith, Requantified-count_pos r)

  pub Requantified-requantify :
      {i n : ℕ} {xs ys : List (Order P)}
      → Requantified i n xs ys
      → count_id i ys ≤ 1
      → requantify i n ys ≡ xs
  Requantified-requantify (set_here o os e) h = ground arith
  Requantified-requantify (set_there x r) h =
      ground (arith, Requantified-requantify r, Requantified-count_pos r)

module _ {P : Type 0} (c : Comparator P) (side : Side) where
  -- A new order passes a level that is not worse than its price.
  place-pass :
      (k : P) (o : Order P) (q os : List (Order P))
      → All (Belongs side k) q
      → c.lt o.price k ≡ false
      → place c o (q ++ os) ≡ q ++ place c o os
  place-pass k o [] os b h = refl
  place-pass k o (x ∷ q) os b h =
      let not_before : c.lt o.price x.price ≡ false = rw b.0.1 h in
      rw not_before (ap (λ (r : List (Order P)). x ∷ r) (place-pass k o q os b.1 h))

  -- It goes in front of levels that are all worse.
  place-front :
      (o : Order P) (m : Levels P)
      → IsLadder c side m
      → Above c o.price m
      → place c o (orders m) ≡ o ∷ orders m
  place-front o [] l a = refl
  place-front o ((k, []) ∷ rest) l a = absurd (l.0 refl)
  place-front o ((k, x ∷ q) ∷ rest) l a =
      let before : c.lt o.price x.price ≡ true = rw l.1.0.1 a.0 in rw before

  -- `push_back` at the level of the price is placement behind all orders that are not worse.
  pub push_back-place :
      (o : Order P) (m : Levels P)
      → IsLadder c side m
      → orders (push_back c o.price o m) ≡ place c o (orders m)
  unfolding push_back
  push_back-place o [] l = refl
  push_back-place o ((k, q) ∷ rest) l = elim (Bool-cases (c.lt o.price k)) [
    | inl before ↦
        rw before
          (sym (place-front o ((k, q) ∷ rest) l (before, Above-trans c o.price k rest before l.2)))
    | inr not_before ↦ elim (Bool-cases (c.lt k o.price)) [
      | inl after ↦
          rw (not_before, after, place-pass k o q (orders rest) l.1 not_before)
            (ap (◌++◌ q) (push_back-place o rest l.3))
      | inr not_after ↦
          let level : o.price ≡ k = c.lt_connex o.price k not_before not_after in
          let above : Above c o.price rest = subst (λ (j : P). Above c j rest) (sym level) l.2 in
          rw
            (
              not_before,
              not_after,
              place-pass k o q (orders rest) l.1 not_before,
              place-front o rest l.3 above,
            )
            (append_assoc q (o ∷ []) (orders rest))
    ]
  ]
