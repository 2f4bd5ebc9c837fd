-- ===== src/Levels/Found.antt =====
-- What `eraseFromSide`, `find_order_in_deque` and the in-place write of src/order_book.cpp do when
-- the order is in the map.
use leviathan_matching_engin.Prelude.{
  ℕ, ◌<◌, ◌≡◌, ◌⊎◌, refl, true, false, List, [], ◌∷◌, ◌++◌, ◌==◌, arith, All, inl, inr, Bool-cases,
  Option-cases, Option, some,
}
use leviathan_matching_engin.Price.{Comparator, same_price}
use leviathan_matching_engin.Order.{Side, Order}
use leviathan_matching_engin.Levels.{
  Levels, orders, keep_level, erase_order, set_quantity, alter_level, find_level,
  find_order_in_deque,
}
use leviathan_matching_engin.Levels.Ladder.{Belongs, Above, IsLadder, find_id-Above}
use leviathan_matching_engin.Resting.{
  Insertion, here, there, Insertion-append_left, Insertion-append_right, find_id, find_id-append,
  All-find_id, Requantified, set_here, set_there, Requantified-append_left,
  Requantified-append_right,
}

module _ {P : Type 0} where
  -- A change `f` of a deque succeeds on every deque that holds the id, is related by `R` to the
  -- deque that it found, and keeps the orders at their level.
  abbrev pub Changes :
      (List (Order P) → List (Order P) → Type 0)
      → ℕ
      → Order P
      → (List (Order P) → Option (List (Order P)))
      → Type 0
  Changes R i o f =
      (q : List (Order P))
      → find_id i q ≡ some o
      → (q' : List (Order P)) × (f q ≡ some q')
        × R q' q
        × ((side : Side) (k : P) → All (Belongs side k) q → All (Belongs side k) q')

  pub erase_order-Changes : (i : ℕ) (o : Order P) → Changes (Insertion o) i o (erase_order i)
  erase_order-Changes i o [] h = cc
  erase_order-Changes i o (x ∷ q) h = elim (Bool-cases (i == x.id)) [
    | inl e ↦ let p : x ≡ o = ground arith in (q, ground arith, rw p (here q), λ side k a. a.1)
    | inr e ↦
        let (q', done, n, keep) = erase_order-Changes i o q (ground arith) in
        (x ∷ q', ground arith, there x n, λ side k a. (a.0, keep side k a.1))
  ]

  pub set_quantity-Changes :
      (i n : ℕ) (o : Order P) → 0 < n → Changes (Requantified i n) i o (set_quantity i n)
  set_quantity-Changes i n o pos [] h = cc
  set_quantity-Changes i n o pos (x ∷ q) h = elim (Bool-cases (i == x.id)) [
    | inl e ↦ (
      record x { quantity = n } ∷ q,
      ground arith,
      set_here x q (ground arith),
      λ side k a. ((a.0.0, a.0.1, pos), a.1),
    )
    | inr e ↦
        let (q', done, r, keep) = set_quantity-Changes i n o pos q (ground arith) in
        (x ∷ q', ground arith, set_there x r, λ side k a. (a.0, keep side k a.1))
  ]

module _ {P : Type 0} (c : Comparator P) where
  pub same_price_refl : (a : P) → same_price c a a ≡ true
  same_price_refl a = ground (arith, c.lt_irrefl a)

  same_price-Above : (a b : P) → c.lt b a ≡ true → same_price c a b ≡ false
  same_price-Above a b h = ground arith

  -- An order found in the map is in the deque of its level, or further down.
  find_id-level :
      (side : Side) (i : ℕ) (k : P) (q : List (Order P)) (rest : Levels P) {o : Order P}
      → IsLadder c side ((k, q) ∷ rest)
      → find_id i (q ++ orders rest) ≡ some o
      → ((find_id i q ≡ some o) × (o.price ≡ k))
        ⊎ ((find_id i (orders rest) ≡ some o) × (c.lt k o.price ≡ true))
  find_id-level side i k q rest {o} l h = elim (Option-cases (find_id i q)) [
    | inl missing ↦
        let below : find_id i (orders rest) ≡ some o =
          ground (arith, find_id-append i q (orders rest)) in
        inr (below, find_id-Above c side i k rest l.3 l.2 below)
    | inr (o', found) ↦
        let e : find_id i q ≡ some o = ground (arith, find_id-append i q (orders rest)) in
        inl (e, (All-find_id (Belongs side k) i q l.1 e).1)
  ]

  -- `find_order_in_deque` returns the order that the map holds.
  pub find_order_in_deque_lem :
      (side : Side) (i : ℕ) (m : Levels P) {o : Order P}
      → IsLadder c side m
      → find_id i (orders m) ≡ some o
      → find_order_in_deque c o.price i m ≡ some o
  unfolding find_order_in_deque find_level
  find_order_in_deque_lem side i [] l h = cc
  find_order_in_deque_lem side i ((k, q) ∷ rest) {o} l h =
      elim (find_id-level side i k q rest l h) [
        | inl (e, p) ↦
            let same : same_price c o.price k ≡ true = rw p (same_price_refl k) in ground arith
        | inr (e, p) ↦
            let further : same_price c o.price k ≡ false = same_price-Above o.price k p in
            let below : find_order_in_deque c o.price i rest ≡ some o =
              find_order_in_deque_lem side i rest {o = o} l.3 e in
            ground arith
      ]

module _ {P : Type 0} (c : Comparator P) (side : Side) where
  pub orders-keep_level :
      (k : P) (rest : Levels P) (q : List (Order P))
      → orders (keep_level k rest q) ≡ q ++ orders rest
  orders-keep_level k rest [] = refl
  orders-keep_level k rest (o ∷ q) = refl

  pub keep_level-IsLadder :
      (k : P) (rest : Levels P) (q : List (Order P))
      → All (Belongs side k) q
      → Above c k rest
      → IsLadder c side rest
      → IsLadder c side (keep_level k rest q)
  keep_level-IsLadder k rest [] b a l = l
  keep_level-IsLadder k rest (o ∷ q) b a l = (λ e. cc, b, a, l)

  keep_level-Above :
      (j k : P) (rest : Levels P) (q : List (Order P))
      → c.lt j k ≡ true
      → Above c j rest
      → Above c j (keep_level k rest q)
  keep_level-Above j k rest [] h a = a
  keep_level-Above j k rest (o ∷ q) h a = (h, a)

  -- A change of the deque that holds the order succeeds, and the map keeps its shape.
  abbrev pub Altered :
      (List (Order P) → List (Order P) → Type 0)
      → (List (Order P) → Option (List (Order P)))
      → Levels P
      → P
      → Type 0
  Altered R f m p =
      (m' : Levels P) × (alter_level c p f m ≡ some m')
      × R (orders m') (orders m)
      × IsLadder c side m'
      × ((j : P) → Above c j m → Above c j m')

  module _ (R : List (Order P) → List (Order P) → Type 0)
      (left : (zs xs ys : List (Order P)) → R xs ys → R (zs ++ xs) (zs ++ ys))
      (right : (zs xs ys : List (Order P)) → R xs ys → R (xs ++ zs) (ys ++ zs)) (i : ℕ)
      (o : Order P) (f : List (Order P) → Option (List (Order P))) (change : Changes R i o f) where
    pub alter_level-Altered :
        (m : Levels P) → IsLadder c side m → find_id i (orders m) ≡ some o → Altered R f m o.price
    unfolding alter_level
    alter_level-Altered [] l h = cc
    alter_level-Altered ((k, q) ∷ rest) l h = elim (find_id-level c side i k q rest l h) [
      | inl (e, p) ↦
          let (q', done, r, keep) = change q e in
          (
            keep_level k rest q',
            rw (p, same_price_refl c k, done),
            rw (orders-keep_level k rest q') (right (orders rest) q' q r),
            keep_level-IsLadder k rest q' (keep side k l.1) l.2 l.3,
            λ j a. keep_level-Above j k rest q' a.0 a.1,
          )
      | inr (e, p) ↦
          let (m', done, r, l', above) = alter_level-Altered rest l.3 e in
          (
            (k, q) ∷ m',
            rw (same_price-Above c o.price k p, done),
            left q (orders m') (orders rest) r,
            (l.0, l.1, above k l.2, l'),
            λ j a. (a.0, above j a.1),
          )
    ]

  pub set_quantity-Altered :
      (i n : ℕ) (m : Levels P) {o : Order P}
      → 0 < n
      → IsLadder c side m
      → find_id i (orders m) ≡ some o
      → Altered (Requantified i n) (set_quantity i n) m o.price
  set_quantity-Altered i n m {o} pos =
      alter_level-Altered (Requantified i n) (λ zs xs ys. Requantified-append_left zs)
        (λ zs xs ys. Requantified-append_right zs) i o (set_quantity i n)
        (set_quantity-Changes i n o pos) m

  -- `eraseFromSide` takes out exactly the order that the map holds under the id.
  pub erase_order-Altered :
      (i : ℕ) (m : Levels P) {o : Order P}
      → IsLadder c side m
      → find_id i (orders m) ≡ some o
      → Altered (Insertion o) (erase_order i) m o.price
  erase_order-Altered i m {o} =
      alter_level-Altered (Insertion o) (λ zs xs ys. Insertion-append_left zs)
        (λ zs xs ys. Insertion-append_right zs) i o (erase_order i) (erase_order-Changes i o) m
