-- ===== src/Matching/Sorted.antt =====
-- A side map of src/order_book.cpp by price, and the part of it that a taker accepts.
use leviathan_matching_engin.Prelude.{
  ◌-◌, ◌⊎◌, inr, ◌≡◌, refl, Bool, false, List, [], ◌∷◌, ◌++◌, arith, All, All-append, All-imp,
}
use leviathan_matching_engin.Price.{Comparator, lt_asymm}
use leviathan_matching_engin.Order.{Side, Order}
use leviathan_matching_engin.Levels.{Levels, orders}
use leviathan_matching_engin.Levels.Ladder.{Belongs, Above, IsLadder}
use leviathan_matching_engin.Matching.Priority.{accepts, consume}
use leviathan_matching_engin.Matching.Fills.{IsMonotone, eligible_volume}

module _ {P : Type 0} (c : Comparator P) where
  -- No order stands behind one of a worse price.
  abbrev pub IsSorted : List (Order P) → Type 0
  IsSorted [] = Unit
  IsSorted (o ∷ os) = All (λ (x : Order P). c.lt x.price o.price ≡ false) os × IsSorted os

  -- The orders below a level are not better than it.
  Above-orders :
      (side : Side) (k : P) (m : Levels P)
      → IsLadder c side m
      → Above c k m
      → All (λ (x : Order P). c.lt x.price k ≡ false) (orders m)
  Above-orders side k [] l a = tt
  Above-orders side k ((j, q) ∷ rest) l a =
      All-append _ q (orders rest) (All-imp _ _ q (λ x b. rw b.1 (lt_asymm c k j a.0)) l.1)
        (Above-orders side k rest l.3 a.1)

  level-IsSorted :
      (side : Side) (k : P) (q os : List (Order P))
      → All (Belongs side k) q
      → All (λ (x : Order P). c.lt x.price k ≡ false) os
      → IsSorted os
      → IsSorted (q ++ os)
  level-IsSorted side k [] os b a s = s
  level-IsSorted side k (o ∷ q) os b a s = (
    All-append _ q os (All-imp _ _ q (λ x e. rw (e.1, b.0.1) (c.lt_irrefl k)) b.1) (rw b.0.1 a),
    level-IsSorted side k q os b.1 a s,
  )

  -- The flattened map is sorted by price.
  pub orders-IsSorted : (side : Side) (m : Levels P) → IsLadder c side m → IsSorted (orders m)
  orders-IsSorted side [] l = tt
  orders-IsSorted side ((k, q) ∷ rest) l =
      level-IsSorted side k q (orders rest) l.1 (Above-orders side k rest l.3 l.2)
        (orders-IsSorted side rest l.3)

  module _ (skip : Bool) (own : P) where
    accepts-worse :
        (a b : P) → accepts c skip own a ≡ false → c.lt b a ≡ false → accepts c skip own b ≡ false
    accepts-worse a b h k = ground (arith, c.lt_connex a b, c.lt_trans own a b)

    pub eligible_volume-zero :
        (a : P) (os : List (Order P))
        → accepts c skip own a ≡ false
        → All (λ (x : Order P). c.lt x.price a ≡ false) os
        → eligible_volume (accepts c skip own) os ≡ 0
    eligible_volume-zero a [] h all = refl
    eligible_volume-zero a (o ∷ os) h all =
        rw (accepts-worse a o.price h all.0) (omega (arith, eligible_volume-zero a os h all.1))

    -- So no order that the taker accepts stands behind one that it does not.
    pub IsSorted-IsMonotone :
        (os : List (Order P)) → IsSorted os → IsMonotone (accepts c skip own) os
    IsSorted-IsMonotone [] s = tt
    IsSorted-IsMonotone (o ∷ os) s =
        ((λ h. eligible_volume-zero o.price os h s.0), IsSorted-IsMonotone os s.1)

    pub refused-All :
        (a : P) (os : List (Order P))
        → accepts c skip own a ≡ false
        → All (λ (x : Order P). c.lt x.price a ≡ false) os
        → All (λ (x : Order P). accepts c skip own x.price ≡ false) os
    refused-All a os h all =
        All-imp _ _ os (λ x not_better. accepts-worse a x.price h not_better) all

    -- A taker that is not filled has left only orders that it does not accept.
    pub consume-refused :
        (t : Order P) (os : List (Order P))
        → IsSorted os
        → let x = consume (accepts c skip own) t os in
          (x.left ≡ 0) ⊎ All (λ (y : Order P). accepts c skip own y.price ≡ false) x.remaining
    unfolding consume
    consume-refused t [] s = inr tt
    consume-refused t (r ∷ rs) s = ground (
      arith,
      consume-refused (record t { quantity = t.quantity - r.quantity }) rs s.1,
      λ (h : accepts c skip own r.price ≡ false). refused-All r.price rs h s.0,
    )
