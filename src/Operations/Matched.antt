-- ===== src/Operations/Matched.antt =====
-- The book after the matching loop of `submitOrder`, src/order_book.cpp.
use leviathan_matching_engin.Prelude.{ℕ, ◌≡◌, none, [], arith}
use leviathan_matching_engin.Price.{Comparator}
use leviathan_matching_engin.Order.{Order, opposite, is_market}
use leviathan_matching_engin.Index
use leviathan_matching_engin.Index.{Index, OrderLocation, lookup-erase}
use leviathan_matching_engin.Levels.{orders}
use leviathan_matching_engin.Book.{OrderBook, side_map, set_side, comparator}
use leviathan_matching_engin.Book.Validity.{
  IsValid, side-IsLadder, side-Agrees, set_opposite-IsValid, set_side-index,
}
use leviathan_matching_engin.Matching.{run_matching}
use leviathan_matching_engin.Matching.Refinement.{Refines, match_loop-Refines, spec}
use leviathan_matching_engin.Matching.Indexed.{IsIndexed, match_loop-IsIndexed}

module _ {P : Type 0} (less : Comparator P) where
  -- The matching loop keeps the other side's shape, and with it the book's invariant.
  pub run_matching-Refines :
      (b : OrderBook P) (t : Order P)
      → IsValid less b
      → let theirs = opposite t.side in
        Refines
          (comparator less theirs)
          (is_market t.type)
          theirs
          (record {
            incoming = t;
            side_map = side_map theirs b;
            order_index = b.order_index;
            trades = [];
          })
          (run_matching less b t)
          (spec (comparator less theirs) (is_market t.type) theirs t (orders (side_map theirs b)))
  unfolding run_matching
  run_matching-Refines b t v =
      match_loop-Refines _ _ (opposite t.side) _ _ (side-IsLadder less (opposite t.side) v)
        (omega arith)

  pub run_matching-IsIndexed :
      (b : OrderBook P) (t : Order P)
      → IsValid less b
      → IsIndexed
          (comparator less (opposite t.side))
          (is_market t.type)
          (opposite t.side)
          (orders (side_map t.side b))
          b.order_index
          (run_matching less b t)
  unfolding run_matching
  run_matching-IsIndexed b t v =
      match_loop-IsIndexed _ _ _ _ _ _ (side-IsLadder less (opposite t.side) v)
        (side-Agrees less t.side v)

  -- The book after the matching loop.
  abbrev pub matched : OrderBook P → Order P → OrderBook P
  matched b t =
      let m = run_matching less b t in set_side (opposite t.side) m.side_map m.order_index b

  pub matched-IsValid :
      (b : OrderBook P) (t : Order P) → IsValid less b → IsValid less (matched b t)
  matched-IsValid b t v =
      set_opposite-IsValid less t.side _ _ b v (run_matching-Refines b t v).ladder
        (run_matching-IsIndexed b t v).agrees

  -- An id that is free before the matching loop is free after it.
  pub matched-free :
      (b : OrderBook P) (t : Order P) (i : ℕ)
      → IsValid less b
      → Index.lookup i b.order_index ≡ none
      → Index.lookup i (matched b t).order_index ≡ none
  matched-free b t i v h =
      rw
        (set_side-index (opposite t.side) (run_matching less b t).side_map
          (run_matching less b t).order_index b)
        ((run_matching-IsIndexed b t v).no_new i h)

  -- What the matching loop leaves of the taker.
  pub run_matching-taker :
      (b : OrderBook P) (t : Order P)
      → IsValid less b
      → (run_matching less b t).incoming
        ≡ record t { quantity = (run_matching less b t).incoming.quantity }
  run_matching-taker b t v = ground (arith, (run_matching-Refines b t v).taker)
