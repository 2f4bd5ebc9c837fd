-- ===== src/Exchange.antt =====
-- The abstract exchange that the class `OrderBook` of src/order_book.cpp promises: the resting orders
-- of each side in one list, best first, with no levels, index, deques or 64-bit sums.
pub mod Place
pub mod Refinement
pub mod Resubmit
pub mod Apart
pub mod Uncrossed
pub mod Volume
pub mod Budget
use leviathan_matching_engin.Prelude.{
  ℕ, ◌+◌, Bool, true, false, not, ◌&&◌, Option, none, some, List, [], ◌∷◌, ◌++◌, ◌==◌, leb, ltb,
  if◌then◌else◌,
}
use leviathan_matching_engin.Price.{Comparator, same_price}
use leviathan_matching_engin.Order.{
  Side, buy, sell, Order, Trade, limit, make_order, opposite, is_market, is_limit, is_fok,
}
use leviathan_matching_engin.Resting.{find_id}
use leviathan_matching_engin.Book.{OrderBook, comparator}
use leviathan_matching_engin.Levels.{orders}
use leviathan_matching_engin.Matching.Priority.{accepts, consume}
use leviathan_matching_engin.Matching.Fills.{eligible_volume}

pub record Exchange (P : Type 0) : Type 0 where
  pub bids : List (Order P)
  pub asks : List (Order P)

module _ {P : Type 0} where
  abbrev pub view : OrderBook P → Exchange P
  view b = record { bids = orders b.bids; asks = orders b.asks }

  abbrev pub queue : Side → Exchange P → List (Order P)
  queue buy e = e.bids
  queue sell e = e.asks

  abbrev pub set_queue : Side → List (Order P) → Exchange P → Exchange P
  set_queue buy q e = record e { bids = q }
  set_queue sell q e = record e { asks = q }

  -- The list without the first order that has the id.
  abbrev pub remove_id : ℕ → List (Order P) → List (Order P)
  remove_id i [] = []
  remove_id i (o ∷ os) = if i == o.id then os else o ∷ remove_id i os

  -- The list with a new quantity in the first order that has the id.
  abbrev pub requantify : ℕ → ℕ → List (Order P) → List (Order P)
  requantify i n [] = []
  requantify i n (o ∷ os) =
      if i == o.id then record o { quantity = n } ∷ os else o ∷ requantify i n os

  abbrev pub remove : ℕ → Exchange P → Exchange P
  remove i e = record { bids = remove_id i e.bids; asks = remove_id i e.asks }

  -- The resting order with an id.
  abbrev pub find : ℕ → Exchange P → Option (Order P)
  find i e = find_id i (e.bids ++ e.asks)

  -- An order goes behind all that are not worse.
  abbrev pub place : Comparator P → Order P → List (Order P) → List (Order P)
  place c o [] = o ∷ []
  place c o (x ∷ xs) = if c.lt o.price x.price then o ∷ x ∷ xs else x ∷ place c o xs

module _ {P : Type 0} (less : Comparator P) where
  abbrev pub add : Order P → Exchange P → Exchange P
  add o e = set_queue o.side (place (comparator less o.side) o (queue o.side e)) e

  abbrev pub acceptable : Order P → P → Bool
  acceptable t = accepts (comparator less (opposite t.side)) (is_market t.type) t.price

  -- The match of a taker, and the rest of a LIMIT order.
  abbrev pub trade : Order P → Exchange P → Exchange P × List (Trade P)
  trade t e =
      let x = consume (acceptable t) t (queue (opposite t.side) e) in
      let e' = set_queue (opposite t.side) x.remaining e in
      (
        (if not (x.left == 0) && is_limit t.type
            then add (record t { quantity = x.left }) e'
            else e'),
        x.fills,
      )

  -- A FOK order is killed unless the volume at its price or better fills it.
  abbrev pub is_killed : Order P → Exchange P → Bool
  is_killed t e =
      is_fok t.type
      && not (leb t.quantity (eligible_volume (acceptable t) (queue (opposite t.side) e)))

  pub submit : Order P → Exchange P → Exchange P × List (Trade P)
  submit t e = if t.quantity == 0 then (e, []) else (if is_killed t e then (e, []) else trade t e)

  -- A modification of a resting order, behind the lookup of its id.
  abbrev pub modify_resting :
      ℕ → ℕ → P → ℕ → Exchange P → Option (Order P) → Exchange P × Option (List (Trade P)) × ℕ
  modify_resting counter i p n e none = (e, none, counter)
  modify_resting counter i p n e (some o) =
      if n == 0
      then (remove i e, some [], counter)
      else (if same_price less p o.price && leb n o.quantity
          then (
            record { bids = requantify i n e.bids; asks = requantify i n e.asks },
            some [],
            counter,
          )
          else (let (new, counter') = make_order counter i o.side p n limit in
              let (e', trades) = submit new (remove i e) in (e', some trades, counter')))

  pub modify : ℕ → ℕ → P → ℕ → Exchange P → Exchange P × Option (List (Trade P)) × ℕ
  modify counter i p n e = modify_resting counter i p n e (find i e)
