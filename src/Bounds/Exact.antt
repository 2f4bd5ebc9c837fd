-- ===== src/Bounds/Exact.antt =====
-- The subtractions of the matching loop of src/order_book.cpp, in `uint64_t`.
use leviathan_matching_engin.Prelude.{◌+◌, ◌≡◌, ap, arith}
use leviathan_matching_engin.Price.{Comparator}
use leviathan_matching_engin.Order.{Order}
use leviathan_matching_engin.Resting.{volume}
use leviathan_matching_engin.Levels.{orders}
use leviathan_matching_engin.Book.{OrderBook}
use leviathan_matching_engin.Book.Validity.{IsValid}
use leviathan_matching_engin.Matching.{run_matching}
use leviathan_matching_engin.Matching.Fills.{traded, consume-quantity, consume-volume}
use leviathan_matching_engin.Operations.Matched.{run_matching-Refines}
use leviathan_matching_engin.Operations.Submit.{acceptable, opposing}
use leviathan_matching_engin.Bounds.{FitsOrder, FitsBook}
use leviathan_matching_engin.Bounds.Matching.{FitsMatching, run_matching-Fits}

module _ {P : Type 0} (less : Comparator P) (b : OrderBook P) (t : Order P) where
  -- On a valid book with ids and quantities below 2^64, matching an order in that range wraps no
  -- subtraction: what is left of the order and the traded quantity add to its quantity, what is
  -- left of the opposing volume and the traded quantity add to that volume, and the order, the
  -- levels and the trades stay in range.
  pub run_matching-exact :
      IsValid less b
      → FitsBook b
      → FitsOrder t
      → let m = run_matching less b t in
        (m.incoming.quantity + traded m.trades ≡ t.quantity)
        × (volume (orders m.side_map) + traded m.trades ≡ volume (opposing less t b))
        × FitsMatching m
  run_matching-exact v fits_book fits =
      let m = run_matching less b t in
      let done = run_matching-Refines less b t v in
      let filled = consume-quantity (acceptable less t) t (opposing less t b) in
      let out = consume-volume (acceptable less t) t (opposing less t b) in
      (
        omega (arith, filled, ap (λ (o : Order P). o.quantity) done.taker, ap traded done.filled),
        omega (arith, out, ap volume done.book, ap traded done.filled),
        run_matching-Fits less b t fits_book fits,
      )
