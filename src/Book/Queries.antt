-- ===== src/Book/Queries.antt =====
-- The queries of the class `OrderBook`, src/order_book.cpp: `bestBid`, `bestAsk`, `totalOrderCount` and
-- `getDepth`.
use leviathan_matching_engin.Prelude.{
  ℕ, zero, suc, ◌+◌, ◌%◌, ◌<◌, ◌≡◌, refl, true, false, Option, none, some, List, [], ◌∷◌, ◌++◌,
  arith, length, map, ap, sym, ◌∙◌, subst, leb, if◌then◌else◌, length-append, All,
}
use leviathan_matching_engin.Price.{Comparator, greater, same_price}
use leviathan_matching_engin.Order.{Side, buy, sell, Order, uint64_limit}
use leviathan_matching_engin.Resting.{volume, volume-append}
use leviathan_matching_engin.Levels.{Levels, PriceLevel, orders, sum_quantities, depth_levels}
use leviathan_matching_engin.Levels.Ladder.{Belongs, Above, IsLadder}
use leviathan_matching_engin.Matching.Sorted.{orders-IsSorted}
use leviathan_matching_engin.Book.{
  OrderBook, side_map, top_price, best_bid, best_ask, total_order_count, get_depth, comparator,
}
use leviathan_matching_engin.Book.Validity.{IsValid, side-IsLadder}

abbrev pub take_levels : {A : Type 0} → ℕ → List A → List A
take_levels zero m = []
take_levels (suc n) [] = []
take_levels (suc n) (l ∷ m) = l ∷ take_levels n m

map-take_levels :
    {A B : Type 0} (g : A → B) (n : ℕ) (m : List A)
    → map g (take_levels n m) ≡ take_levels n (map g m)
map-take_levels g zero m = refl
map-take_levels g (suc n) [] = refl
map-take_levels g (suc n) (l ∷ m) = ap (λ ls. g l ∷ ls) (map-take_levels g n m)

module _ {P : Type 0} where
  -- `none` for no orders, and otherwise the price of some order that no order is better than.
  abbrev pub IsBest : Comparator P → List (Order P) → Option P → Type 0
  IsBest c os none = os ≡ []
  IsBest c os (some p) =
      (x : Order P) × (xs : List (Order P)) × (os ≡ x ∷ xs)
      × (x.price ≡ p)
      × All (λ (y : Order P). c.lt y.price p ≡ false) os

  -- What a level shows: its price, the volume of its orders and their number.
  abbrev pub summary : P × List (Order P) → PriceLevel P
  summary l = record { price = l.0; aggregate_quantity = volume l.1; order_count = length l.1 }

  sum_quantities_lem :
      (agg : ℕ) (q : List (Order P))
      → agg + volume q < uint64_limit
      → sum_quantities agg q ≡ agg + volume q
  sum_quantities_lem agg [] h = omega arith
  sum_quantities_lem agg (o ∷ q) h =
      let kept : (agg + o.quantity) % uint64_limit ≡ agg + o.quantity = omega arith in
      rw kept (omega (arith, sum_quantities_lem (agg + o.quantity) q (omega arith)))

  depth_levels_lem :
      (m : Levels P) (n : ℕ)
      → volume (orders m) < uint64_limit
      → depth_levels m n ≡ map summary (take_levels n m)
  unfolding depth_levels
  depth_levels_lem [] zero w = refl
  depth_levels_lem [] (suc n) w = refl
  depth_levels_lem ((k, q) ∷ rest) zero w = refl
  depth_levels_lem ((k, q) ∷ rest) (suc n) w =
      let parts = volume-append q (orders rest) in
      let sum : sum_quantities 0 q ≡ volume q =
        omega (arith, sum_quantities_lem 0 q (omega (arith, parts))) in
      rw sum (ap (λ ls. summary (k, q) ∷ ls) (depth_levels_lem rest n (omega (arith, parts))))

  top_price-IsBest :
      (c : Comparator P) (side : Side) (m : Levels P)
      → IsLadder c side m
      → IsBest c (orders m) (top_price m)
  top_price-IsBest c side [] l = refl
  top_price-IsBest c side ((k, []) ∷ rest) l = absurd (l.0 refl)
  top_price-IsBest c side ((k, x ∷ q) ∷ rest) l =
      let sorted = orders-IsSorted c side ((k, x ∷ q) ∷ rest) l in
      let here : x.price ≡ k = l.1.0.1 in
      (x, q ++ orders rest, refl, here, (rw here (c.lt_irrefl k), rw here at sorted.0))

module _ {P : Type 0} (less : Comparator P) (b : OrderBook P) (v : IsValid less b) where
  -- On a valid book `bestBid` is the highest price of a resting bid, and `bestAsk` the lowest of a
  -- resting ask; there is none where the side is empty.
  pub quoted-IsBest :
      IsBest (greater less) (orders b.bids) (best_bid b) × IsBest less (orders b.asks) (best_ask b)
  unfolding best_bid best_ask
  quoted-IsBest = (
    top_price-IsBest (greater less) buy b.bids v.bids_ladder,
    top_price-IsBest less sell b.asks v.asks_ladder,
  )

  -- On a valid book `totalOrderCount`, the size of the index, is the number of resting orders.
  pub total_order_count_lem : total_order_count b ≡ length (orders b.bids) + length (orders b.asks)
  unfolding total_order_count
  total_order_count_lem =
      omega (arith, v.indexed.counted, length-append (orders b.bids) (orders b.asks))

module _ {P : Type 0} (c : Comparator P) where
  -- An order in front of some levels: it joins the first of them if it has its price.
  abbrev join_level : Order P → List (PriceLevel P) → List (PriceLevel P)
  join_level o [] =
      record { price = o.price; aggregate_quantity = o.quantity + 0; order_count = 1 } ∷ []
  join_level o (l ∷ ls) =
      if same_price c o.price l.price
      then record l {
        aggregate_quantity = o.quantity + l.aggregate_quantity;
        order_count = suc l.order_count;
      }
        ∷ ls
      else record { price = o.price; aggregate_quantity = o.quantity + 0; order_count = 1 } ∷ l ∷ ls

  -- The levels of a list of orders, with no map: neighbours of one price are one level.
  abbrev pub price_levels : List (Order P) → List (PriceLevel P)
  price_levels [] = []
  price_levels (o ∷ os) = join_level o (price_levels os)

  -- The first level comes after `k`.
  abbrev IsAfter : P → List (PriceLevel P) → Type 0
  IsAfter k [] = Unit
  IsAfter k (l ∷ ls) = c.lt k l.price ≡ true

  join_level-after :
      (o : Order P) (ls : List (PriceLevel P))
      → IsAfter o.price ls
      → join_level o ls ≡ summary (o.price, o ∷ []) ∷ ls
  join_level-after o [] h = refl
  join_level-after o (l ∷ ls) h = rw h refl

  price_levels-level :
      (side : Side) (k : P) (o : Order P) (q os : List (Order P))
      → All (Belongs side k) (o ∷ q)
      → IsAfter k (price_levels os)
      → price_levels ((o ∷ q) ++ os) ≡ summary (k, o ∷ q) ∷ price_levels os
  price_levels-level side k o [] os b h =
      let here : o.price ≡ k = b.0.1 in
      subst
        (λ (j : P).
          IsAfter j (price_levels os)
          → price_levels (o ∷ os) ≡ summary (j, o ∷ []) ∷ price_levels os)
        here (join_level-after o (price_levels os)) h
  price_levels-level side k o (x ∷ q) os b h =
      let here : o.price ≡ k = b.0.1 in
      rw (price_levels-level side k x q os b.1 h, here, c.lt_irrefl k) refl

  price_levels-IsAfter :
      (side : Side) (k : P) (m : Levels P) → Above c k m → IsAfter k (map summary m)
  price_levels-IsAfter side k [] a = tt
  price_levels-IsAfter side k (l ∷ m) a = a.0

  price_levels-orders :
      (side : Side) (m : Levels P) → IsLadder c side m → price_levels (orders m) ≡ map summary m
  price_levels-orders side [] l = refl
  price_levels-orders side ((k, []) ∷ rest) l = absurd (l.0 refl)
  price_levels-orders side ((k, o ∷ q) ∷ rest) l =
      let later = price_levels-orders side rest l.3 in
      price_levels-level side k o q (orders rest) l.1
        (subst (IsAfter k) (sym later) (price_levels-IsAfter side k rest l.2))
      ∙ ap (λ ls. summary (k, o ∷ q) ∷ ls) later

-- On a valid book `getDepth` of `n` levels throws if `n` is above the `max_size()` of its vector,
-- and otherwise, while the side's volume is below 2^64, shows the first `n` groups of equal price
-- in the list of the side's resting orders, each with its price, volume and number of orders.
pub get_depth_lem :
    {P : Type 0} (less : Comparator P) (max_size : ℕ) (b : OrderBook P) (s : Side) (n : ℕ)
    → IsValid less b
    → volume (orders (side_map s b)) < uint64_limit
    → get_depth max_size b s n ≡ (
        if leb n max_size
        then some (take_levels n (price_levels (comparator less s) (orders (side_map s b))))
        else none)
unfolding get_depth
get_depth_lem less max_size b s n v w =
    ap (λ ls. if leb n max_size then some ls else none)
      (depth_levels_lem (side_map s b) n w
        ∙ map-take_levels summary n (side_map s b)
        ∙ ap (take_levels n) (
            sym
              (price_levels-orders (comparator less s) s (side_map s b) (side-IsLadder less s v))))
