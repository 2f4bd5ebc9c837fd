-- ===== src/Operations/Submit.antt =====
-- What `submitOrder` of src/order_book.cpp returns and leaves in the book.
use leviathan_matching_engin.Prelude.{
  min, ◌≡◌, refl, ap, ◌∙◌, Bool, true, false, not, ◌&&◌, List, [], ◌==◌, arith, length, All, map,
  Bool-cases, inl, inr, All-imp,
}
use leviathan_matching_engin.Price.{Comparator}
use leviathan_matching_engin.Order.{
  Side, buy, sell, Order, Trade, opposite, is_market, is_limit, is_fok,
}
use leviathan_matching_engin.Levels.{Levels, orders}
use leviathan_matching_engin.Index.{Index}
use leviathan_matching_engin.Levels.Ladder.{IsLadder-orders}
use leviathan_matching_engin.Book.{OrderBook, side_map, set_side, comparator}
use leviathan_matching_engin.Book.Validity.{IsValid, side-IsLadder}
use leviathan_matching_engin.Matching.{run_matching}
use leviathan_matching_engin.Matching.Priority.{accepts, consume}
use leviathan_matching_engin.Matching.Fills.{
  traded, maker_id, take, IsFill, eligible_volume, consume-traded, consume-IsFill, consume-makers,
}
use leviathan_matching_engin.Matching.Sorted.{IsSorted-IsMonotone, orders-IsSorted}
use leviathan_matching_engin.Operations.{submit_order, execute, can_fully_fill, rest_remainder}
use leviathan_matching_engin.Operations.Matched.{matched, run_matching-Refines}

module _ {P : Type 0} (less : Comparator P) (t : Order P) where
  -- The prices at which an incoming order may trade.
  abbrev pub acceptable : P → Bool
  acceptable = accepts (comparator less (opposite t.side)) (is_market t.type) t.price

  -- The resting orders that an incoming order may trade with, best first.
  abbrev pub opposing : OrderBook P → List (Order P)
  opposing b = orders (side_map (opposite t.side) b)

  -- The test on which a FOK order is killed.
  abbrev pub killed : OrderBook P → Bool
  killed b = is_fok t.type && not (can_fully_fill less b t.side t.price t.quantity)

  pub submit_cases {ℓ} :
      (Q : OrderBook P × List (Trade P) → Type ℓ) (b : OrderBook P)
      → (t.quantity ≡ 0 → Q (b, []))
      → (killed b ≡ true → Q (b, []))
      → (killed b ≡ false → Q (execute less b t))
      → Q (submit_order less b t)
  unfolding submit_order
  submit_cases Q b none_wanted dead alive = elim (Bool-cases (t.quantity == 0)) [
    | inl zero_quantity ↦ rw zero_quantity (none_wanted (ground arith))
    | inr some_quantity ↦ elim (Bool-cases (killed b)) [
      | inl h ↦ rw (some_quantity, h) (dead h)
      | inr h ↦ rw (some_quantity, h) (alive h)
    ]
  ]

  execute_book :
      (b : OrderBook P)
      → side_map t.side (execute less b t).0
        ≡ side_map t.side (rest_remainder less (matched less b t) (run_matching less b t).incoming)
  unfolding execute
  execute_book b = refl

  module _ (b : OrderBook P) (v : IsValid less b) where
    abbrev c : Comparator P
    c = comparator less (opposite t.side)

    pub execute-fills : (execute less b t).1 ≡ (consume acceptable t (opposing b)).fills
    unfolding execute
    execute-fills = (run_matching-Refines less b t v).filled

    -- On a valid book every trade of `submitOrder` is at a price that the order accepts, of a
    -- positive quantity, names the order on its side and carries its timestamp.
    pub submit_order-IsFill : All (IsFill acceptable t) (submit_order less b t).1
    submit_order-IsFill =
        submit_cases (λ r. All (IsFill acceptable t) r.1) b (λ _. tt) (λ _. tt)
          λ _. rw execute-fills (
            consume-IsFill acceptable t (opposing b) (
              All-imp _ _ (opposing b) (λ o h. h.1)
                (IsLadder-orders c (opposite t.side) (side_map (opposite t.side) b)
                  (side-IsLadder less (opposite t.side) v))))

    -- On a valid book the makers of the trades of `submitOrder` are the first opposing orders, in
    -- their order and at their prices.
    pub submit_order-makers :
        let fills = (submit_order less b t).1 in
        (map (maker_id t.side) fills
          ≡ map (λ (o : Order P). o.id) (take (length fills) (opposing b)))
        × (map (λ (f : Trade P). f.price) fills
            ≡ map (λ (o : Order P). o.price) (take (length fills) (opposing b)))
    submit_order-makers =
        submit_cases
          (λ r.
            (map (maker_id t.side) r.1
              ≡ map (λ (o : Order P). o.id) (take (length r.1) (opposing b)))
            × (map (λ (f : Trade P). f.price) r.1
                ≡ map (λ (o : Order P). o.price) (take (length r.1) (opposing b))))
          b (λ _. (refl, refl)) (λ _. (refl, refl))
          λ _. rw execute-fills (consume-makers acceptable t (opposing b))

    pub execute-traded :
        traded (execute less b t).1 ≡ min t.quantity (eligible_volume acceptable (opposing b))
    execute-traded = rw execute-fills (
        consume-traded acceptable t (opposing b) (
          IsSorted-IsMonotone c (is_market t.type) t.price (opposing b) (
            orders-IsSorted c (opposite t.side) (side_map (opposite t.side) b)
              (side-IsLadder less (opposite t.side) v))))

    -- On a valid book an order that is not FOK trades all that is eligible, up to its quantity.
    pub submit_order-traded :
        is_fok t.type ≡ false
        → traded (submit_order less b t).1
          ≡ min t.quantity (eligible_volume acceptable (opposing b))
    submit_order-traded h =
        submit_cases (λ r. traded r.1 ≡ min t.quantity (eligible_volume acceptable (opposing b))) b
          (λ e. omega arith) (λ e. absurd (ground arith)) (λ _. execute-traded)

    own-set_opposite :
        (s : Side) (m : Levels P) (x : Index P)
        → side_map s (set_side (opposite s) m x b) ≡ side_map s b
    own-set_opposite buy m x = refl
    own-set_opposite sell m x = refl

    -- An order that is not LIMIT leaves its own side of a valid book as it was.
    pub submit_order-never_rests :
        is_limit t.type ≡ false → side_map t.side (submit_order less b t).0 ≡ side_map t.side b
    submit_order-never_rests h =
        submit_cases (λ r. side_map t.side r.0 ≡ side_map t.side b) b (λ _. refl) (λ _. refl)
          (λ _. executed)
      where
        not_limit : is_limit (run_matching less b t).incoming.type ≡ false
        not_limit =
            ap (λ (o : Order P). is_limit o.type) (run_matching-Refines less b t v).taker ∙ h

        no_rest :
            rest_remainder less (matched less b t) (run_matching less b t).incoming
            ≡ matched less b t
        no_rest = ground (arith, not_limit)

        executed : side_map t.side (execute less b t).0 ≡ side_map t.side b
        executed =
            execute_book b
            ∙ ap (side_map t.side) no_rest
            ∙ own-set_opposite t.side (run_matching less b t).side_map
                (run_matching less b t).order_index
