-- ===== src/Matching.antt =====
-- The matching loop of `OrderBook::submitOrder`, src/order_book.cpp, against either side.
pub mod Priority
pub mod Rounds
pub mod Refinement
pub mod Indexed
pub mod Fills
pub mod Sorted
pub mod Preview
use leviathan_matching_engin.Prelude.{
  ℕ, zero, suc, ◌-◌, min, Bool, true, false, not, ◌&&◌, Option, none, some, List, [], ◌∷◌, ◌++◌,
  ◌==◌, if◌then◌else◌, length,
}
use leviathan_matching_engin.Price.{Comparator}
use leviathan_matching_engin.Order.{buy, sell, Order, Trade, opposite, is_market, sub_uint64}
use leviathan_matching_engin.Index.{Index, OrderLocation}
use leviathan_matching_engin.Index
use leviathan_matching_engin.Book.{OrderBook, side_map, comparator}
use leviathan_matching_engin.Levels.{Levels, orders, keep_level}

-- The variables of the matching loop: the incoming order, the side map that it is matched against,
-- the index and the trades so far.
pub record Matching (P : Type 0) : Type 0 where
  pub incoming : Order P
  pub side_map : Levels P
  pub order_index : Index P
  pub trades : List (Trade P)

module _ {P : Type 0} where
  -- The trade of one fill; the taker's side says who bought.
  abbrev pub make_trade : Order P → Order P → ℕ → Trade P
  make_trade incoming resting fill_qty = record {
    buy_order_id = elim incoming.side [ buy ↦ incoming.id | sell ↦ resting.id ];
    sell_order_id = elim incoming.side [ buy ↦ resting.id | sell ↦ incoming.id ];
    price = resting.price;
    quantity = fill_qty;
    timestamp = incoming.timestamp;
  }

  -- The end of the loop's body: the resting order, with `left` to fill, is removed from its deque
  -- and the index if that is 0 (`removeFrontOrder_`), and written back otherwise.
  abbrev pub settle_front :
      P → List (Order P) → Levels P → Index P → Order P → ℕ → Levels P × Index P
  settle_front k q rest x resting left =
      if left == 0
      then (keep_level k rest q, Index.erase resting.id x)
      else ((k, record resting { quantity = left } ∷ q) ∷ rest, x)

  -- The loop's body from `fill_qty` on, for the order at the front of the best level.
  unfoldable pub fill_front : Matching P → P → Order P → List (Order P) → Levels P → Matching P
  fill_front m k resting q rest =
      let fill_qty = min m.incoming.quantity resting.quantity in
      let (side_map', index') =
        settle_front k q rest m.order_index resting (sub_uint64 resting.quantity fill_qty) in
      record {
        incoming = record m.incoming { quantity = sub_uint64 m.incoming.quantity fill_qty };
        side_map = side_map';
        order_index = index';
        trades = m.trades ++ make_trade m.incoming resting fill_qty ∷ [];
      }

module _ {P : Type 0} (c : Comparator P) (skip_price_check : Bool) where
  -- One round of the matching loop against a map sorted by `c`; `none` where the loop ends.
  -- The source reads `front()` of each level that it meets: of an empty deque that is undefined.
  abbrev pub match_front : Matching P → Levels P → Option (Matching P)
  match_front m [] = none
  match_front m ((k, []) ∷ rest) = none
  match_front m ((k, resting ∷ q) ∷ rest) =
      if not skip_price_check && c.lt m.incoming.price k
      then none
      else some (fill_front m k resting q rest)

  unfoldable pub match_round : Matching P → Option (Matching P)
  match_round m = if m.incoming.quantity == 0 then none else match_front m m.side_map

  -- The loop, on fuel.
  unfoldable pub match_loop : ℕ → Matching P → Matching P
  match_loop zero m = m
  match_loop (suc fuel) m = elim (match_round m) [ none ↦ m | some m' ↦ match_loop fuel m' ]

module _ {P : Type 0} (less : Comparator P) where
  -- The loop against the other side, with fuel for one round more than there are resting orders.
  unfoldable pub run_matching : OrderBook P → Order P → Matching P
  run_matching b incoming =
      let theirs = opposite incoming.side in
      match_loop (comparator less theirs) (is_market incoming.type)
        (suc (length (orders (side_map theirs b))))
        (record {
          incoming = incoming;
          side_map = side_map theirs b;
          order_index = b.order_index;
          trades = [];
        })
