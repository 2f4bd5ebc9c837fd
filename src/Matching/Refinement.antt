-- ===== src/Matching/Refinement.antt =====
-- The matching loop of src/order_book.cpp against price-time priority.
use leviathan_matching_engin.Prelude.{
  ℕ, zero, suc, ◌-◌, ◌<◌, ◌≡◌, refl, ap, sym, ◌∙◌, Bool, not, ◌||◌, none, List, [], ◌∷◌, ◌++◌, ◌==◌,
  leb, arith, length, Bool-cases, inl, inr, append_assoc, append-nil,
}
use leviathan_matching_engin.Price.{Comparator}
use leviathan_matching_engin.Order.{Side, Order, Trade}
use leviathan_matching_engin.Index
use leviathan_matching_engin.Index.{Index}
use leviathan_matching_engin.Levels.{Levels, orders, keep_level}
use leviathan_matching_engin.Levels.Ladder.{IsLadder}
use leviathan_matching_engin.Levels.Found.{orders-keep_level, keep_level-IsLadder}
use leviathan_matching_engin.Matching.{Matching, make_trade, match_round, match_loop}
use leviathan_matching_engin.Matching.Priority.{
  Execution, accepts, consume, consume_nil, consume_stop, consume_whole, consume_part,
}
use leviathan_matching_engin.Matching.Rounds.{
  match_round_filled, match_round_empty, match_loop_ended, match_round_stop, match_loop_whole,
  match_loop_part, before,
}

module _ {P : Type 0} (c : Comparator P) (skip : Bool) where
  module _ (side : Side) where
    -- What the loop has done from `m` on, against the specification's result `e`.
    pub record Refines (m m' : Matching P) (e : Execution P) : Type 0 where
      pub taker : m'.incoming ≡ record m.incoming { quantity = e.left }
      pub book : orders m'.side_map ≡ e.remaining
      pub filled : m'.trades ≡ m.trades ++ e.fills
      pub ladder : IsLadder c side m'.side_map
      pub ended : match_round c skip m' ≡ none

    abbrev pub spec : Order P → List (Order P) → Execution P
    spec taker os = consume (accepts c skip taker.price) taker os

    Refines-ended :
        (fuel : ℕ) (m : Matching P)
        → IsLadder c side m.side_map
        → match_round c skip m ≡ none
        → spec m.incoming (orders m.side_map)
          ≡ record { left = m.incoming.quantity; remaining = orders m.side_map; fills = [] }
        → Refines m (match_loop c skip fuel m) (spec m.incoming (orders m.side_map))
    Refines-ended fuel m l h e =
        rw (match_loop_ended c skip fuel m h, e)
          (record {
            taker = refl;
            book = refl;
            filled = sym (append-nil m.trades);
            ladder = l;
            ended = h;
          })

    -- One fill of a whole order, and then the rest of the loop.
    Refines-whole :
        (m m' : Matching P) (r : Order P) (e : Execution P) (x : Index P) (lv : Levels P)
        → Refines
            (record {
              incoming = record m.incoming { quantity = m.incoming.quantity - r.quantity };
              side_map = lv;
              order_index = x;
              trades = m.trades ++ make_trade m.incoming r r.quantity ∷ [];
            })
            m'
            e
        → Refines m m' (record e { fills = make_trade m.incoming r r.quantity ∷ e.fills })
    Refines-whole m m' r e x lv f = record {
      taker = f.taker;
      book = f.book;
      filled = f.filled ∙ append_assoc m.trades (make_trade m.incoming r r.quantity ∷ []) e.fills;
      ladder = f.ladder;
      ended = f.ended;
    }

    match_loop-Refines_at :
        (fuel : ℕ) (t : Order P) (lv : Levels P) (x : Index P) (ts : List (Trade P))
        → IsLadder c side lv
        → length (orders lv) < fuel
        → let m : Matching P = record {
          incoming = t;
          side_map = lv;
          order_index = x;
          trades = ts;
        } in
          Refines m (match_loop c skip fuel m) (spec t (orders lv))
    match_loop-Refines_at zero t lv x ts l h = absurd (omega arith)
    match_loop-Refines_at (suc fuel) t [] x ts l h =
        Refines-ended (suc fuel) _ l (match_round_empty c skip t x ts)
          (consume_nil (accepts c skip t.price) t)
    match_loop-Refines_at (suc fuel) t ((k, []) ∷ rest) x ts l h = absurd (l.0 refl)
    match_loop-Refines_at (suc fuel) t ((k, r ∷ q) ∷ rest) x ts l h =
        elim (Bool-cases (t.quantity == 0 || not (accepts c skip t.price r.price))) [
          | inl stop ↦
              Refines-ended (suc fuel) _ l (match_round_stop c skip t r k q rest x ts l.1.0.1 stop)
                (consume_stop (accepts c skip t.price) t r (q ++ orders rest) stop)
          | inr fill ↦ elim (Bool-cases (leb r.quantity t.quantity)) [
            | inl whole ↦
                rw
                  (
                    match_loop_whole c skip t r k q rest x ts fuel l.1.0.1 fill whole,
                    consume_whole (accepts c skip t.price) t r (q ++ orders rest) fill whole,
                  )
                  (Refines-whole (before c skip t r k q rest x ts) _ r _ (Index.erase r.id x)
                    (keep_level k rest q)
                    (rw (orders-keep_level c side k rest q) at (
                      match_loop-Refines_at fuel (record t { quantity = t.quantity - r.quantity })
                        (keep_level k rest q) (Index.erase r.id x)
                        (ts ++ make_trade t r r.quantity ∷ [])
                        (keep_level-IsLadder c side k rest q l.1.1 l.2 l.3)
                        (omega (arith, ap length (orders-keep_level c side k rest q))))))
            | inr part ↦
                rw
                  (
                    match_loop_part c skip t r k q rest x ts fuel l.1.0.1 fill part,
                    consume_part (accepts c skip t.price) t r (q ++ orders rest) fill part,
                  )
                  (record {
                    taker = refl;
                    book = refl;
                    filled = refl;
                    ladder = (λ e. cc, ((l.1.0.0, l.1.0.1, ground arith), l.1.1), l.2, l.3);
                    ended = match_round_filled c skip _ refl;
                  })
          ]
        ]

    -- On a side map in order, the matching loop, given fuel for one round more than there are
    -- resting orders, ends by its own test, and its trades, the orders that it leaves and what is
    -- left of the taker are those of price-time priority.
    pub match_loop-Refines :
        (fuel : ℕ) (m : Matching P)
        → IsLadder c side m.side_map
        → length (orders m.side_map) < fuel
        → Refines m (match_loop c skip fuel m) (spec m.incoming (orders m.side_map))
    match_loop-Refines fuel m l h =
        match_loop-Refines_at fuel m.incoming m.side_map m.order_index m.trades l h
