-- ===== src/Operations.antt =====
-- The operations of the class `OrderBook`, src/order_book.cpp. Each takes the book and returns the new
-- book with its result; `modify_order` also takes and returns the timestamp counter of
-- include/order.hpp, from which it draws.
pub mod Matched
pub mod Cancel
pub mod Validity
pub mod Modify
pub mod Submit
pub mod FillOrKill
pub mod Free
use leviathan_matching_engin.Prelude.{
  ℕ, Bool, true, false, not, ◌&&◌, Option, none, some, List, [], ◌==◌, leb, if◌then◌else◌,
}
use leviathan_matching_engin.Price.{Comparator, same_price}
use leviathan_matching_engin.Order.{
  limit, Order, Trade, Side, make_order, opposite, is_limit, is_fok,
}
use leviathan_matching_engin.Index.{Index, OrderLocation}
use leviathan_matching_engin.Index
use leviathan_matching_engin.Book.{OrderBook, side_map, set_side, comparator}
use leviathan_matching_engin.Matching.{run_matching}
use leviathan_matching_engin.Levels.{
  push_back, alter_level, erase_from_side, set_quantity, can_fully_fill_from_map,
  find_order_in_deque,
}

module _ {P : Type 0} (less : Comparator P) where
  unfoldable pub add_order : OrderBook P → Order P → OrderBook P
  add_order b order =
      set_side order.side
        (push_back (comparator less order.side) order.price order (side_map order.side b))
        (Index.insert order.id (record { side = order.side; price = order.price }) b.order_index) b

  -- `cancelOrder` behind its lookup in the index.
  abbrev pub cancel_at : OrderBook P → ℕ → Option (OrderLocation P) → OrderBook P × Bool
  cancel_at b order_id none = (b, false)
  cancel_at b order_id (some loc) =
      elim (erase_from_side (comparator less loc.side) loc.price order_id (side_map loc.side b)) [
        | none ↦ (b, false)
        | some m ↦ (set_side loc.side m (Index.erase order_id b.order_index) b, true)
      ]

  unfoldable pub cancel_order : OrderBook P → ℕ → OrderBook P × Bool
  cancel_order b order_id = cancel_at b order_id (Index.lookup order_id b.order_index)

  -- `canFullyFill_`.
  unfoldable pub can_fully_fill : OrderBook P → Side → P → ℕ → Bool
  can_fully_fill b incoming_side price quantity =
      can_fully_fill_from_map (comparator less (opposite incoming_side))
        (side_map (opposite incoming_side) b) price quantity

  -- The end of `submitOrder`: what is left of a LIMIT order is rested.
  abbrev pub rest_remainder : OrderBook P → Order P → OrderBook P
  rest_remainder b incoming =
      if not (incoming.quantity == 0) && is_limit incoming.type then add_order b incoming else b

  -- `submitOrder` from the matching loop on.
  unfoldable pub execute : OrderBook P → Order P → OrderBook P × List (Trade P)
  execute b incoming =
      let m = run_matching less b incoming in
      (
        rest_remainder (set_side (opposite incoming.side) m.side_map m.order_index b) m.incoming,
        m.trades,
      )

  unfoldable pub submit_order : OrderBook P → Order P → OrderBook P × List (Trade P)
  submit_order b incoming =
      if incoming.quantity == 0
      then (b, [])
      else (if is_fok incoming.type
            && not (can_fully_fill b incoming.side incoming.price incoming.quantity)
          then (b, [])
          else execute b incoming)

  -- `modifyOrder` once it has found the order in its deque.
  abbrev pub modify_found :
      ℕ
      → OrderBook P
      → ℕ
      → P
      → ℕ
      → OrderLocation P
      → Option (Order P)
      → OrderBook P × Option (List (Trade P)) × ℕ
  modify_found counter b order_id new_price new_quantity loc none = (b, none, counter)
  modify_found counter b order_id new_price new_quantity loc (some order) =
      if same_price less new_price loc.price && leb new_quantity order.quantity
      then (
        elim (alter_level (comparator less loc.side) loc.price (set_quantity order_id new_quantity)
            (side_map loc.side b)) [ none ↦ b | some m ↦ set_side loc.side m b.order_index b ],
        some [],
        counter,
      )
      else (let (cancelled, _) = cancel_order b order_id in
          let (new_order, counter') =
            make_order counter order_id loc.side new_price new_quantity limit in
          let (b', trades) = submit_order cancelled new_order in (b', some trades, counter'))

  -- `modifyOrder` behind its lookup in the index.
  abbrev pub modify_at :
      ℕ
      → OrderBook P
      → ℕ
      → P
      → ℕ
      → Option (OrderLocation P)
      → OrderBook P × Option (List (Trade P)) × ℕ
  modify_at counter b order_id new_price new_quantity none = (b, none, counter)
  modify_at counter b order_id new_price new_quantity (some loc) =
      if new_quantity == 0
      then (let (b', cancelled) = cancel_order b order_id in
          (b', (if cancelled then some [] else none), counter))
      else modify_found counter b order_id new_price new_quantity loc
          (find_order_in_deque (comparator less loc.side) loc.price order_id (side_map loc.side b))

  unfoldable pub modify_order :
      ℕ → OrderBook P → ℕ → P → ℕ → OrderBook P × Option (List (Trade P)) × ℕ
  modify_order counter b order_id new_price new_quantity =
      modify_at counter b order_id new_price new_quantity (Index.lookup order_id b.order_index)
