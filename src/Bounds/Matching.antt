-- ===== src/Bounds/Matching.antt =====
-- The matching loop of src/order_book.cpp on orders within `uint64_t`.
use leviathan_matching_engin.Prelude.{
  ℕ, zero, suc, ◌<◌, ◌≤◌, ◌≡◌, min, Bool, Option-cases, inl, inr, some, List, [], ◌∷◌, arith, All,
  All-append,
}
use leviathan_matching_engin.Price.{Comparator}
use leviathan_matching_engin.Order.{Order, opposite, uint64_limit, sub_uint64}
use leviathan_matching_engin.Levels.{Levels}
use leviathan_matching_engin.Book.{OrderBook}
use leviathan_matching_engin.Matching.{
  Matching, make_trade, fill_front, match_front, match_round, match_loop, run_matching,
}
use leviathan_matching_engin.Bounds.{FitsOrder, FitsTrade, FitsLevels, FitsBook, side_map-Fits}
use leviathan_matching_engin.Bounds.Maps.{keep_level-Fits}

sub_uint64-min : (m n : ℕ) → sub_uint64 m (min m n) ≤ m
sub_uint64-min m n = ground arith

module _ {P : Type 0} where
  pub record FitsMatching (m : Matching P) : Type 0 where
    pub incoming : FitsOrder m.incoming
    pub levels : FitsLevels m.side_map
    pub trades : All FitsTrade m.trades

  make_trade-Fits :
      (t r : Order P) (n : ℕ)
      → FitsOrder t
      → FitsOrder r
      → n < uint64_limit
      → FitsTrade (make_trade t r n)
  make_trade-Fits t r n ht hr hn = ground arith

  fill_front-Fits :
      (m : Matching P) (k : P) (r : Order P) (q : List (Order P)) (rest : Levels P)
      → FitsMatching m
      → FitsOrder r
      → All FitsOrder q
      → FitsLevels rest
      → FitsMatching (fill_front m k r q rest)
  unfolding fill_front
  fill_front-Fits m k r q rest h hr hq hrest =
      let n = min m.incoming.quantity r.quantity in
      record {
        incoming = (
          h.incoming.0,
          omega (arith, h.incoming.1, sub_uint64-min m.incoming.quantity r.quantity),
        );
        levels = ground (arith, keep_level-Fits k rest q hrest hq);
        trades =
            All-append FitsTrade m.trades (make_trade m.incoming r n ∷ []) h.trades
              (make_trade-Fits m.incoming r n h.incoming hr (omega (arith, hr.1)), tt);
      }

module _ {P : Type 0} (c : Comparator P) (skip : Bool) where
  match_front-Fits :
      (m m' : Matching P) (lv : Levels P)
      → match_front c skip m lv ≡ some m'
      → FitsMatching m
      → FitsLevels lv
      → FitsMatching m'
  match_front-Fits m m' [] e h l = cc
  match_front-Fits m m' ((k, []) ∷ rest) e h l = cc
  match_front-Fits m m' ((k, r ∷ q) ∷ rest) e h l =
      ground (arith, fill_front-Fits m k r q rest h l.0.0 l.0.1 l.1)

  match_round-Fits :
      (m m' : Matching P) → match_round c skip m ≡ some m' → FitsMatching m → FitsMatching m'
  unfolding match_round
  match_round-Fits m m' e h = match_front-Fits m m' m.side_map (ground arith) h h.levels

  match_loop-Fits :
      (fuel : ℕ) (m : Matching P) → FitsMatching m → FitsMatching (match_loop c skip fuel m)
  unfolding match_loop
  match_loop-Fits zero m h = h
  match_loop-Fits (suc fuel) m h = elim (Option-cases (match_round c skip m)) [
    | inl e ↦ rw (e, match_loop) h
    | inr (m', e) ↦ rw (e, match_loop) (match_loop-Fits fuel m' (match_round-Fits m m' e h))
  ]

module _ {P : Type 0} (less : Comparator P) where
  pub run_matching-Fits :
      (b : OrderBook P) (t : Order P)
      → FitsBook b
      → FitsOrder t
      → FitsMatching (run_matching less b t)
  unfolding run_matching
  run_matching-Fits b t hb ht =
      match_loop-Fits _ _ _ _
        (record { incoming = ht; levels = side_map-Fits (opposite t.side) b hb; trades = tt })
