-- ===== src/Untimed/Maps.antt =====
-- The function templates of src/order_book.cpp over a side map do not look at timestamps.
use leviathan_matching_engin.Prelude.{
  ℕ, zero, suc, ◌+◌, ◌%◌, Option-cases, inl, inr, ◌≡◌, refl, ap, sym, ◌∙◌, Bool, Option, List, [],
  ◌∷◌, ◌++◌, length, arith,
}
use mathlib.Core.Option
use leviathan_matching_engin.Price.{Comparator}
use leviathan_matching_engin.Order.{Order, uint64_limit}
use leviathan_matching_engin.Resting.{find_id}
use leviathan_matching_engin.Levels.{
  Levels, orders, sum_quantities, depth_levels, erase_order, set_quantity, keep_level,
  preview_level, preview_levels, push_back, alter_level, find_level, find_order_in_deque,
  can_fully_fill_from_map,
}
use leviathan_matching_engin.Untimed.{
  untimed_order, untimed_orders, untimed_levels, untimed_orders-append,
}

module _ {P : Type 0} where
  -- A change of a deque that does not look at timestamps.
  abbrev pub IsUntimed : (List (Order P) → Option (List (Order P))) → Type 0
  IsUntimed f = (q : List (Order P)) → f (untimed_orders q) ≡ Option.map untimed_orders (f q)

  pub erase_order-IsUntimed : (i : ℕ) → IsUntimed (erase_order i)
  erase_order-IsUntimed i [] = refl
  erase_order-IsUntimed i (o ∷ q) = ground (arith, erase_order-IsUntimed i q)

  pub set_quantity-IsUntimed : (i n : ℕ) → IsUntimed (set_quantity i n)
  set_quantity-IsUntimed i n [] = refl
  set_quantity-IsUntimed i n (o ∷ q) = ground (arith, set_quantity-IsUntimed i n q)

  pub find_id-untimed_orders :
      (i : ℕ) (q : List (Order P))
      → find_id i (untimed_orders q) ≡ Option.map untimed_order (find_id i q)
  find_id-untimed_orders i [] = refl
  find_id-untimed_orders i (o ∷ q) = ground (arith, find_id-untimed_orders i q)

  pub keep_level-untimed_levels :
      (k : P) (rest : Levels P) (q : List (Order P))
      → keep_level k (untimed_levels rest) (untimed_orders q) ≡ untimed_levels (keep_level k rest q)
  keep_level-untimed_levels k rest [] = refl
  keep_level-untimed_levels k rest (o ∷ q) = refl

  pub preview_level-untimed_orders :
      (needed available : ℕ) (q : List (Order P))
      → preview_level needed available (untimed_orders q) ≡ preview_level needed available q
  preview_level-untimed_orders needed available [] = refl
  preview_level-untimed_orders needed available (o ∷ q) =
      ground
        (arith, preview_level-untimed_orders needed ((available + o.quantity) % uint64_limit) q)

  pub orders-untimed_levels : (m : Levels P) → orders (untimed_levels m) ≡ untimed_orders (orders m)
  orders-untimed_levels [] = refl
  orders-untimed_levels ((k, q) ∷ rest) =
      ap (◌++◌ (untimed_orders q)) (orders-untimed_levels rest)
      ∙ sym (untimed_orders-append q (orders rest))

  pub length-untimed_orders : (q : List (Order P)) → length (untimed_orders q) ≡ length q
  length-untimed_orders [] = refl
  length-untimed_orders (o ∷ q) = omega (arith, length-untimed_orders q)

  sum_quantities-untimed_orders :
      (agg : ℕ) (q : List (Order P)) → sum_quantities agg (untimed_orders q) ≡ sum_quantities agg q
  sum_quantities-untimed_orders agg [] = refl
  sum_quantities-untimed_orders agg (o ∷ q) =
      sum_quantities-untimed_orders ((agg + o.quantity) % uint64_limit) q

  pub depth_levels-untimed_levels :
      (m : Levels P) (n : ℕ) → depth_levels (untimed_levels m) n ≡ depth_levels m n
  unfolding depth_levels
  depth_levels-untimed_levels [] n = refl
  depth_levels-untimed_levels ((k, q) ∷ rest) zero = refl
  depth_levels-untimed_levels ((k, q) ∷ rest) (suc n) = λ i.
      record {
        price = k;
        aggregate_quantity = sum_quantities-untimed_orders 0 q i;
        order_count = length-untimed_orders q i;
      }
      ∷ depth_levels-untimed_levels rest n i

  pub preview_levels-untimed_levels :
      (crosses : P → Bool) (needed available : ℕ) (m : Levels P)
      → preview_levels crosses needed available (untimed_levels m)
        ≡ preview_levels crosses needed available m
  unfolding preview_levels
  preview_levels-untimed_levels crosses needed available [] = refl
  preview_levels-untimed_levels crosses needed available ((k, q) ∷ rest) =
      elim (Option-cases (preview_level needed available q)) [
        | inl e ↦ ground (arith, preview_level-untimed_orders needed available q)
        | inr (sum, e) ↦ ground (
          arith,
          preview_level-untimed_orders needed available q,
          preview_levels-untimed_levels crosses needed sum rest,
        )
      ]

module _ {P : Type 0} (c : Comparator P) where
  pub push_back-untimed_levels :
      (p : P) (o : Order P) (m : Levels P)
      → push_back c p (untimed_order o) (untimed_levels m) ≡ untimed_levels (push_back c p o m)
  unfolding push_back
  push_back-untimed_levels p o [] = refl
  push_back-untimed_levels p o ((k, q) ∷ rest) =
      ground (arith, push_back-untimed_levels p o rest, untimed_orders-append q (o ∷ []))

  pub alter_level-untimed_levels :
      (p : P) (f : List (Order P) → Option (List (Order P))) (m : Levels P)
      → IsUntimed f
      → alter_level c p f (untimed_levels m) ≡ Option.map untimed_levels (alter_level c p f m)
  unfolding alter_level
  alter_level-untimed_levels p f [] u = refl
  alter_level-untimed_levels p f ((k, q) ∷ rest) u =
      ground (arith, alter_level-untimed_levels p f rest u, u q, keep_level-untimed_levels k rest)

  pub find_order-untimed_levels :
      (p : P) (i : ℕ) (m : Levels P)
      → find_order_in_deque c p i (untimed_levels m)
        ≡ Option.map untimed_order (find_order_in_deque c p i m)
  unfolding find_order_in_deque find_level
  find_order-untimed_levels p i [] = refl
  find_order-untimed_levels p i ((k, q) ∷ rest) =
      ground (arith, find_order-untimed_levels p i rest, find_id-untimed_orders i q)

  pub can_fully_fill-untimed_levels :
      (m : Levels P) (p : P) (needed : ℕ)
      → can_fully_fill_from_map c (untimed_levels m) p needed ≡ can_fully_fill_from_map c m p needed
  unfolding can_fully_fill_from_map
  can_fully_fill-untimed_levels m p needed = preview_levels-untimed_levels _ needed 0 m
