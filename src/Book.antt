-- ===== src/Book.antt =====
-- The state of the class `OrderBook` and its queries: include/order_book.hpp, src/order_book.cpp.
pub mod Validity
pub mod Located
pub mod Queries
use leviathan_matching_engin.Prelude.{ℕ, Option, none, some, List, [], ◌∷◌, length}
use leviathan_matching_engin.Price.{Comparator, greater}
use leviathan_matching_engin.Order.{Side, buy, sell}
use leviathan_matching_engin.Index.{Index}
use leviathan_matching_engin.Levels.{Levels, PriceLevel, depth_from_map}

pub record OrderBook (P : Type 0) : Type 0 where
  pub bids : Levels P
  pub asks : Levels P
  pub order_index : Index P

module _ {P : Type 0} where
  abbrev pub empty_book : OrderBook P
  empty_book = record { bids = []; asks = []; order_index = [] }

  -- `bids_` or `asks_`.
  abbrev pub side_map : Side → OrderBook P → Levels P
  side_map buy b = b.bids
  side_map sell b = b.asks

  -- A write to `bids_` or `asks_` and to the index.
  abbrev pub set_side : Side → Levels P → Index P → OrderBook P → OrderBook P
  set_side buy m x b = record b { bids = m; order_index = x }
  set_side sell m x b = record b { asks = m; order_index = x }

  abbrev pub top_price : Levels P → Option P
  top_price [] = none
  top_price ((k, q) ∷ rest) = some k

  unfoldable pub best_bid : OrderBook P → Option P
  best_bid b = top_price b.bids

  unfoldable pub best_ask : OrderBook P → Option P
  best_ask b = top_price b.asks

  unfoldable pub total_order_count : OrderBook P → ℕ
  total_order_count b = length b.order_index

  -- `none` where it throws; the `max_size()` of a vector is a parameter.
  unfoldable pub get_depth : ℕ → OrderBook P → Side → ℕ → Option (List (PriceLevel P))
  get_depth max_size b side max_levels = depth_from_map max_size (side_map side b) max_levels

module _ {P : Type 0} (less : Comparator P) where
  -- The comparator of a side's map.
  abbrev pub comparator : Side → Comparator P
  comparator buy = greater less
  comparator sell = less
