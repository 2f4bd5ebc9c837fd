-- ===== src/Operations/Validity.antt =====
-- The invariant of the book through the operations of src/order_book.cpp.
use leviathan_matching_engin.Prelude.{
  ℕ, ◌<◌, ◌≡◌, refl, ap, sym, ◌∙◌, true, not, ◌&&◌, none, ◌==◌, arith, Bool-cases, Option-cases,
  inl, inr,
}
use leviathan_matching_engin.Price.{Comparator}
use leviathan_matching_engin.Order.{Order, opposite, is_limit}
use leviathan_matching_engin.Index
use leviathan_matching_engin.Index.{Index, OrderLocation, lookup-erase}
use leviathan_matching_engin.Index.Agrees.{insert-Agrees, erase-Agrees}
use leviathan_matching_engin.Resting.{Insertion-append_right}
use leviathan_matching_engin.Levels.{Levels, orders}
use leviathan_matching_engin.Levels.Ladder.{push_back-IsLadder, push_back-Insertion}
use leviathan_matching_engin.Book.{OrderBook, side_map, comparator}
use leviathan_matching_engin.Book.Validity.{IsValid, side-IsLadder, side-Agrees, set_side-IsValid}
use leviathan_matching_engin.Matching.{run_matching}
use leviathan_matching_engin.Operations.{
  add_order, cancel_order, submit_order, execute, rest_remainder,
}
use leviathan_matching_engin.Operations.Matched.{
  matched, matched-IsValid, matched-free, run_matching-taker,
}
use leviathan_matching_engin.Operations.Cancel.{cancel_order_found, cancel_order_missing}

module _ {P : Type 0} (less : Comparator P) where
  -- `addOrder` keeps the book valid, for a positive quantity and an id that no resting order has.
  pub add_order-IsValid :
      (b : OrderBook P) (o : Order P)
      → 0 < o.quantity
      → Index.lookup o.id b.order_index ≡ none
      → IsValid less b
      → IsValid less (add_order less b o)
  unfolding add_order
  add_order-IsValid b o pos new v =
      set_side-IsValid less o.side _ _ b v
        (push_back-IsLadder c o.side o.price o m (refl, refl, pos) (side-IsLadder less o.side v))
        (insert-Agrees new
          (Insertion-append_right (orders (side_map (opposite o.side) b))
            (push_back-Insertion c o.price o m))
          (side-Agrees less o.side v))
    where
      c : Comparator P
      c = comparator less o.side

      m : Levels P
      m = side_map o.side b

  rest_remainder-IsValid :
      (b : OrderBook P) (t : Order P)
      → (is_limit t.type ≡ true → Index.lookup t.id b.order_index ≡ none)
      → IsValid less b
      → IsValid less (rest_remainder less b t)
  rest_remainder-IsValid b t new v = elim (Bool-cases (not (t.quantity == 0) && is_limit t.type)) [
    | inl rests ↦ rw rests (add_order-IsValid b t (ground arith) (new (ground arith)) v)
    | inr done ↦ rw done v
  ]

  -- Only a LIMIT order is rested, so only that needs an id that no resting order has.
  pub execute-IsValid :
      (b : OrderBook P) (t : Order P)
      → (is_limit t.type ≡ true → Index.lookup t.id b.order_index ≡ none)
      → IsValid less b
      → IsValid less (execute less b t).0
  unfolding execute
  execute-IsValid b t new v =
      rest_remainder-IsValid (matched less b t) (run_matching less b t).incoming free
        (matched-IsValid less b t v)
    where
      taker :
          (run_matching less b t).incoming
          ≡ record t { quantity = (run_matching less b t).incoming.quantity }
      taker = run_matching-taker less b t v

      free :
          is_limit (run_matching less b t).incoming.type ≡ true
          → Index.lookup (run_matching less b t).incoming.id (matched less b t).order_index ≡ none
      free e = rw (ap (λ (o : Order P). o.id) taker) (
          matched-free less b t t.id v
            (new (ap (λ (o : Order P). is_limit o.type) (sym taker) ∙ e)))

  -- `submitOrder` keeps the book valid, when the id of a LIMIT order is that of no resting order.
  pub submit_order-IsValid :
      (b : OrderBook P) (t : Order P)
      → (is_limit t.type ≡ true → Index.lookup t.id b.order_index ≡ none)
      → IsValid less b
      → IsValid less (submit_order less b t).0
  unfolding submit_order
  submit_order-IsValid b t new v = ground (arith, execute-IsValid b t new v)

  -- `cancelOrder` keeps the book valid, for any id.
  pub cancel_order-IsValid :
      (b : OrderBook P) (i : ℕ) → IsValid less b → IsValid less (cancel_order less b i).0
  cancel_order-IsValid b i v = elim (Option-cases (Index.lookup i b.order_index)) [
    | inl missing ↦ rw (cancel_order_missing less b i missing) v
    | inr (loc, found) ↦
        let (o, m, done, same, _, n, l) = cancel_order_found less b i v found in
        rw done (
          set_side-IsValid less loc.side m (Index.erase i b.order_index) b v l (
            rw same at (
              erase-Agrees (Insertion-append_right (orders (side_map (opposite loc.side) b)) n)
                (side-Agrees less loc.side v))))
  ]
