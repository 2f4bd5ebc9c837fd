-- ===== src/Levels.antt =====
-- A side map of src/order_book.cpp: `std::map<double, std::deque<Order>, Compare>`, as the list of
-- its entries in the order of the comparator, each deque as a list from front to back.
-- The comparator is an argument, as in the function templates of that file.
pub mod Ladder
pub mod Found
use leviathan_matching_engin.Prelude.{
  ℕ, zero, suc, ◌+◌, ◌%◌, Bool, true, false, not, Option, none, some, List, [], ◌∷◌, ◌++◌, ◌==◌,
  leb, if◌then◌else◌, length,
}
use leviathan_matching_engin.Price.{Comparator, same_price}
use leviathan_matching_engin.Order.{Order, uint64_limit}
use leviathan_matching_engin.Resting.{find_id}
use mathlib.Core.Option

abbrev pub Levels : Type 0 → Type 0
Levels P = List (P × List (Order P))

pub record PriceLevel (P : Type 0) : Type 0 where
  pub price : P
  pub aggregate_quantity : ℕ
  pub order_count : ℕ

module _ {P : Type 0} where
  -- The resting orders, best level first and each level from the front of its deque.
  abbrev pub orders : Levels P → List (Order P)
  orders [] = []
  orders ((k, q) ∷ rest) = q ++ orders rest

  -- `std::find_if` by id, and `erase` of what it found; `none` if it reached the end.
  abbrev pub erase_order : ℕ → List (Order P) → Option (List (Order P))
  erase_order i [] = none
  erase_order i (o ∷ q) =
      if o.id == i then some q else Option.map (λ (r : List (Order P)). o ∷ r) (erase_order i q)

  -- The write `order_ptr->quantity = n` to the first order with the id.
  abbrev pub set_quantity : ℕ → ℕ → List (Order P) → Option (List (Order P))
  set_quantity i n [] = none
  set_quantity i n (o ∷ q) =
      if o.id == i
      then some (record o { quantity = n } ∷ q)
      else Option.map (λ (r : List (Order P)). o ∷ r) (set_quantity i n q)

  -- The entry is erased if its deque is empty.
  abbrev pub keep_level : P → Levels P → List (Order P) → Levels P
  keep_level k rest [] = rest
  keep_level k rest (o ∷ q) = (k, o ∷ q) ∷ rest

  -- The sum of the quantities in one deque, in `uint64_t`.
  abbrev pub sum_quantities : ℕ → List (Order P) → ℕ
  sum_quantities agg [] = agg
  sum_quantities agg (o ∷ q) = sum_quantities ((agg + o.quantity) % uint64_limit) q

  -- The loop of `depthFromMap`.
  unfoldable pub depth_levels : Levels P → ℕ → List (PriceLevel P)
  depth_levels [] max_levels = []
  depth_levels ((k, q) ∷ rest) max_levels = elim max_levels [
    | zero ↦ []
    | suc more ↦
        record { price = k; aggregate_quantity = sum_quantities 0 q; order_count = length q }
        ∷ depth_levels rest more
  ]

  -- `depthFromMap`: `none` where `depth.reserve` throws, which it does above the `max_size()` of the
  -- vector.
  abbrev pub depth_from_map : ℕ → Levels P → ℕ → Option (List (PriceLevel P))
  depth_from_map max_size m max_levels =
      if leb max_levels max_size then some (depth_levels m max_levels) else none

  -- The inner loop of `canFullyFillFromMap_`: the sum so far, or `none` if it reached `needed`.
  abbrev pub preview_level : ℕ → ℕ → List (Order P) → Option ℕ
  preview_level needed available [] = some available
  preview_level needed available (o ∷ q) =
      let available' = (available + o.quantity) % uint64_limit in
      let rest = preview_level needed available' q in if leb needed available' then none else rest

  -- The outer loop of `canFullyFillFromMap_`.
  unfoldable pub preview_levels : (P → Bool) → ℕ → ℕ → Levels P → Bool
  preview_levels crosses needed available [] = false
  preview_levels crosses needed available ((k, q) ∷ rest) =
      if crosses k
      then elim (preview_level needed available q) [
        | none ↦ true
        | some available' ↦ preview_levels crosses needed available' rest
      ]
      else false

module _ {P : Type 0} (c : Comparator P) where
  -- `side_map[price].push_back(order)`.
  unfoldable pub push_back : P → Order P → Levels P → Levels P
  push_back p o [] = (p, o ∷ []) ∷ []
  push_back p o ((k, q) ∷ rest) =
      if c.lt p k
      then (p, o ∷ []) ∷ (k, q) ∷ rest
      else (if c.lt k p then (k, q) ∷ push_back p o rest else (k, q ++ o ∷ []) ∷ rest)

  -- `side_map.find(price)` and a change of the deque found there.
  unfoldable pub alter_level :
      P → (List (Order P) → Option (List (Order P))) → Levels P → Option (Levels P)
  alter_level p f [] = none
  alter_level p f ((k, q) ∷ rest) =
      if same_price c p k
      then Option.map (keep_level k rest) (f q)
      else Option.map (λ (r : Levels P). (k, q) ∷ r) (alter_level p f rest)

  -- `side_map.find(price)->second`.
  unfoldable pub find_level : P → Levels P → Option (List (Order P))
  find_level p [] = none
  find_level p ((k, q) ∷ rest) = if same_price c p k then some q else find_level p rest

  -- The lambda `find_order_in_deque` of `modifyOrder`; `none` is its null pointer.
  unfoldable pub find_order_in_deque : P → ℕ → Levels P → Option (Order P)
  find_order_in_deque p i m = elim (find_level p m) [ none ↦ none | some q ↦ find_id i q ]

  -- `eraseFromSide`: the map after the erasure, or `none` where it returns false and changes nothing.
  unfoldable pub erase_from_side : P → ℕ → Levels P → Option (Levels P)
  erase_from_side p i m = alter_level p (erase_order i) m

  -- `canFullyFillFromMap_`, with the lambda that `canFullyFill_` passes for the side.
  unfoldable pub can_fully_fill_from_map : Levels P → P → ℕ → Bool
  can_fully_fill_from_map m price needed = preview_levels (λ k. not (c.lt price k)) needed 0 m
