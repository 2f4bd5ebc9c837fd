-- ===== src/Bounds.antt =====
-- The `uint64_t` ids and quantities of the book and the trades of src/order_book.cpp.
pub mod Maps
pub mod Matching
pub mod Operations
pub mod Calls
pub mod Exact
use leviathan_matching_engin.Prelude.{ℕ, ◌<◌, List, [], ◌∷◌, All}
use leviathan_matching_engin.Order.{Side, buy, sell, Order, Trade, uint64_limit}
use leviathan_matching_engin.Index.{Index}
use leviathan_matching_engin.Book.{OrderBook, side_map, set_side}

module _ {P : Type 0} where
  abbrev pub FitsOrder : Order P → Type 0
  FitsOrder o = (o.id < uint64_limit) × (o.quantity < uint64_limit)

  abbrev pub FitsTrade : Trade P → Type 0
  FitsTrade t =
      (t.buy_order_id < uint64_limit)
      × (t.sell_order_id < uint64_limit)
      × (t.quantity < uint64_limit)

  abbrev pub FitsLevels : List (P × List (Order P)) → Type 0
  FitsLevels [] = Unit
  FitsLevels ((k, q) ∷ rest) = All FitsOrder q × FitsLevels rest

  abbrev pub FitsBook : OrderBook P → Type 0
  FitsBook b = FitsLevels b.bids × FitsLevels b.asks

  pub side_map-Fits : (s : Side) (b : OrderBook P) → FitsBook b → FitsLevels (side_map s b)
  side_map-Fits buy b h = h.0
  side_map-Fits sell b h = h.1

  pub set_side-Fits :
      (s : Side) (m : List (P × List (Order P))) (x : Index P) (b : OrderBook P)
      → FitsLevels m
      → FitsBook b
      → FitsBook (set_side s m x b)
  set_side-Fits buy m x b l h = (l, h.1)
  set_side-Fits sell m x b l h = (h.0, l)
