-- ===== src/Untimed/Matching.antt =====
-- The matching loop of src/order_book.cpp does not look at timestamps.
use leviathan_matching_engin.Prelude.{
  ℕ, zero, suc, Option-cases, inl, inr, min, ◌≡◌, refl, Bool, List, [], ◌∷◌, arith,
}
use mathlib.Core.Option
use leviathan_matching_engin.Price.{Comparator}
use leviathan_matching_engin.Order.{Order, opposite, is_market}
use leviathan_matching_engin.Levels.{Levels, orders}
use leviathan_matching_engin.Book.{OrderBook, side_map, comparator}
use leviathan_matching_engin.Matching.{
  Matching, make_trade, fill_front, match_front, match_round, match_loop, run_matching,
}
use leviathan_matching_engin.Untimed.{
  untimed_order, untimed_orders, untimed_levels, untimed_trades, untimed_book,
  untimed_trades-append, side_map-untimed_book,
}
use leviathan_matching_engin.Untimed.Maps.{
  keep_level-untimed_levels, orders-untimed_levels, length-untimed_orders,
}

module _ {P : Type 0} where
  abbrev pub untimed_matching : Matching P → Matching P
  untimed_matching m = record {
    incoming = untimed_order m.incoming;
    side_map = untimed_levels m.side_map;
    order_index = m.order_index;
    trades = untimed_trades m.trades;
  }

  fill_front-untimed :
      (m : Matching P) (k : P) (r : Order P) (q : List (Order P)) (rest : Levels P)
      → fill_front (untimed_matching m) k (untimed_order r) (untimed_orders q) (untimed_levels rest)
        ≡ untimed_matching (fill_front m k r q rest)
  unfolding fill_front
  fill_front-untimed m k r q rest = ground (
    arith,
    keep_level-untimed_levels k rest q,
    untimed_trades-append m.trades
        (make_trade m.incoming r (min m.incoming.quantity r.quantity) ∷ []),
  )

module _ {P : Type 0} (c : Comparator P) (skip : Bool) where
  match_front-untimed :
      (m : Matching P) (lv : Levels P)
      → match_front c skip (untimed_matching m) (untimed_levels lv)
        ≡ Option.map untimed_matching (match_front c skip m lv)
  match_front-untimed m [] = refl
  match_front-untimed m ((k, []) ∷ rest) = refl
  match_front-untimed m ((k, r ∷ q) ∷ rest) = ground (arith, fill_front-untimed m k r q rest)

  match_round-untimed :
      (m : Matching P)
      → match_round c skip (untimed_matching m) ≡ Option.map untimed_matching (match_round c skip m)
  unfolding match_round
  match_round-untimed m = ground (arith, match_front-untimed m m.side_map)

  match_loop-untimed :
      (fuel : ℕ) (m : Matching P)
      → match_loop c skip fuel (untimed_matching m) ≡ untimed_matching (match_loop c skip fuel m)
  unfolding match_loop
  match_loop-untimed zero m = refl
  match_loop-untimed (suc fuel) m = elim (Option-cases (match_round c skip m)) [
    | inl e ↦ ground (arith, match_round-untimed m)
    | inr (m', e) ↦ ground (arith, match_round-untimed m, match_loop-untimed fuel m')
  ]

module _ {P : Type 0} (less : Comparator P) where
  pub run_matching-untimed :
      (b : OrderBook P) (t : Order P)
      → run_matching less (untimed_book b) (untimed_order t)
        ≡ untimed_matching (run_matching less b t)
  unfolding run_matching
  run_matching-untimed b t =
      let theirs = opposite t.side in
      rw
        (
          side_map-untimed_book theirs b,
          orders-untimed_levels (side_map theirs b),
          length-untimed_orders (orders (side_map theirs b)),
        )
        (match_loop-untimed (comparator less theirs) (is_market t.type) _ _)
