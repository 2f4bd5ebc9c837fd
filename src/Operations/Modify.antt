-- ===== src/Operations/Modify.antt =====
-- `modifyOrder` of src/order_book.cpp: its cases, and the invariant of the book through it.
use leviathan_matching_engin.Prelude.{
  ℕ, zero, suc, ◌≤◌, ◌<◌, ◌≡◌, ap, ◌∙◌, true, false, ◌&&◌, none, some, [], ◌==◌, leb, arith,
  Bool-cases, Option-cases, inl, inr,
}
use leviathan_matching_engin.Price.{Comparator, same_price}
use leviathan_matching_engin.Order.{Order, limit, opposite, make_order}
use leviathan_matching_engin.Index
use leviathan_matching_engin.Index.{Index, OrderLocation, lookup-erase}
use leviathan_matching_engin.Index.Agrees.{location, requantify-Agrees}
use leviathan_matching_engin.Resting.{find_id, Requantified, Requantified-append_right}
use leviathan_matching_engin.Levels.{orders, alter_level, set_quantity, find_order_in_deque, Levels}
use leviathan_matching_engin.Levels.Ladder.{IsLadder}
use leviathan_matching_engin.Levels.Found.{set_quantity-Altered, find_order_in_deque_lem}
use leviathan_matching_engin.Book.{OrderBook, side_map, set_side, comparator}
use leviathan_matching_engin.Book.Validity.{IsValid, side-IsLadder, side-Agrees, set_side-IsValid}
use leviathan_matching_engin.Book.Located.{lookup-Located}
use leviathan_matching_engin.Operations.{
  cancel_order, submit_order, modify_order, modify_at, modify_found,
}
use leviathan_matching_engin.Operations.Cancel.{cancel_order_found, cancel_order-free}
use leviathan_matching_engin.Operations.Validity.{submit_order-IsValid, cancel_order-IsValid}

module _ {P : Type 0} (less : Comparator P) (counter : ℕ) (b : OrderBook P) (i : ℕ) where
  -- An id that no resting order has: nothing happens.
  pub modify_order_missing :
      (p : P) (n : ℕ)
      → Index.lookup i b.order_index ≡ none
      → modify_order less counter b i p n ≡ (b, none, counter)
  unfolding modify_order
  modify_order_missing p n h = ap (modify_at less counter b i p n) h

  -- CASE 3: quantity 0 is a cancellation, with no trades.
  pub modify_order_zero :
      (p : P) {loc : OrderLocation P}
      → IsValid less b
      → Index.lookup i b.order_index ≡ some loc
      → modify_order less counter b i p 0 ≡ ((cancel_order less b i).0, some [], counter)
  unfolding modify_order
  modify_order_zero p {loc} v h =
      let (o, m, done, _, _, _, _) = cancel_order_found less b i v h in
      ap (modify_at less counter b i p 0) h ∙ ground arith

  module _ (p : P) (n : ℕ) {loc : OrderLocation P} (v : IsValid less b) (pos : 0 < n)
      (h : Index.lookup i b.order_index ≡ some loc) where
    -- The order that the index points at is the one that the source reads.
    modify_order-found :
        (o : Order P)
        → find_id i (orders (side_map loc.side b)) ≡ some o
        → loc.price ≡ o.price
        → modify_order less counter b i p n ≡ modify_found less counter b i p n loc (some o)
    unfolding modify_order
    modify_order-found o found e =
        let in_deque : find_order_in_deque (comparator less loc.side) loc.price i
              (side_map loc.side b)
            ≡ some o =
          rw e (
            find_order_in_deque_lem (comparator less loc.side) loc.side i (side_map loc.side b)
              {o = o} (side-IsLadder less loc.side v) found) in
        let nonzero : (n == 0) ≡ false = ground arith in
        ap (modify_at less counter b i p n) h ∙ rw (nonzero, in_deque, modify_at)

    -- CASE 1: at the same price a quantity that does not grow is written in place.
    pub modify_order_in_place :
        (o : Order P)
        → find_id i (orders (side_map loc.side b)) ≡ some o
        → loc ≡ location o
        → same_price less p loc.price ≡ true
        → n ≤ o.quantity
        → (m : Levels P) × (modify_order less counter b i p n
            ≡ (set_side loc.side m b.order_index b, some [], counter))
          × Requantified i n (orders m) (orders (side_map loc.side b))
          × IsLadder (comparator less loc.side) loc.side m
    modify_order_in_place o found e same le =
        let (m, done, r, l, _) =
          set_quantity-Altered (comparator less loc.side) loc.side i n (side_map loc.side b) {o = o}
            pos (side-IsLadder less loc.side v) found in
        let here : loc.price ≡ o.price = ap (λ (x : OrderLocation P). x.price) e in
        let written : alter_level (comparator less loc.side) loc.price (set_quantity i n)
              (side_map loc.side b)
            ≡ some m =
          rw here done in
        let test : (same_price less p loc.price && leb n o.quantity) ≡ true = ground arith in
        (m, modify_order-found o found here ∙ rw (test, written, modify_found), r, l)

    -- CASE 2: any other change cancels the order and submits a new one under its id.
    pub modify_order_resubmit :
        (o : Order P)
        → find_id i (orders (side_map loc.side b)) ≡ some o
        → loc ≡ location o
        → (same_price less p loc.price && leb n o.quantity) ≡ false
        → let (new, counter') = make_order counter i loc.side p n limit in
          let (b', trades) = submit_order less (cancel_order less b i).0 new in
          modify_order less counter b i p n ≡ (b', some trades, counter')
    modify_order_resubmit o found e other =
        modify_order-found o found (ap (λ (x : OrderLocation P). x.price) e)
        ∙ rw (other, modify_found)

    modify_order-IsValid_at :
        (o : Order P)
        → find_id i (orders (side_map loc.side b)) ≡ some o
        → loc ≡ location o
        → IsValid less (modify_order less counter b i p n).0
    modify_order-IsValid_at o found e =
        elim (Bool-cases (same_price less p loc.price && leb n o.quantity)) [
          | inl same ↦
              let (m, done, r, l) = modify_order_in_place o found e (ground arith) (ground arith) in
              rw done (
                set_side-IsValid less loc.side m b.order_index b v l (
                  requantify-Agrees
                    (Requantified-append_right (orders (side_map (opposite loc.side) b)) r)
                    (side-Agrees less loc.side v)))
          | inr other ↦ rw (modify_order_resubmit o found e other) (
              submit_order-IsValid less _ _ (λ _. cancel_order-free less b i v h)
                (cancel_order-IsValid less b i v))
        ]

  -- `modifyOrder` keeps the book valid in every one of its cases.
  pub modify_order-IsValid :
      (p : P) (n : ℕ) → IsValid less b → IsValid less (modify_order less counter b i p n).0
  modify_order-IsValid p n v = elim (Option-cases (Index.lookup i b.order_index)) [
    | inl missing ↦ rw (modify_order_missing p n missing) v
    | inr (loc, h) ↦ at_quantity n loc h
  ]
    where
      at_quantity :
          (k : ℕ) (loc : OrderLocation P)
          → Index.lookup i b.order_index ≡ some loc
          → IsValid less (modify_order less counter b i p k).0
      at_quantity zero loc h = rw (modify_order_zero p v h) (cancel_order-IsValid less b i v)
      at_quantity (suc k) loc h =
          let (o, found, e, _) = lookup-Located less b i v h in
          modify_order-IsValid_at p (suc k) v (omega arith) h o found e
