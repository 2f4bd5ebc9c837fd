-- ===== src/Matching/Indexed.antt =====
-- The index of the book through the matching loop of src/order_book.cpp.
use leviathan_matching_engin.Prelude.{
  ℕ, zero, suc, ◌-◌, ◌≡◌, refl, Bool, not, ◌||◌, none, List, [], ◌∷◌, ◌++◌, ◌==◌, leb, arith,
  Bool-cases, inl, inr,
}
use leviathan_matching_engin.Price.{Comparator}
use leviathan_matching_engin.Order.{Side, Order, Trade}
use leviathan_matching_engin.Index
use leviathan_matching_engin.Index.{Index, lookup-erase}
use leviathan_matching_engin.Index.Agrees.{Agrees, erase-Agrees, requantify-Agrees}
use leviathan_matching_engin.Resting.{
  here, set_here, Insertion-append_left, Requantified-append_left,
}
use leviathan_matching_engin.Levels.{Levels, orders, keep_level}
use leviathan_matching_engin.Levels.Ladder.{IsLadder}
use leviathan_matching_engin.Levels.Found.{orders-keep_level, keep_level-IsLadder}
use leviathan_matching_engin.Matching.{Matching, make_trade, match_loop}
use leviathan_matching_engin.Matching.Priority.{accepts}
use leviathan_matching_engin.Matching.Rounds.{
  match_loop-zero, match_loop_ended, match_round_empty, match_round_stop, match_loop_whole,
  match_loop_part,
}

module _ {P : Type 0} (c : Comparator P) (skip : Bool) (side : Side) (others : List (Order P)) where
  -- The index agrees with the orders of the other side and those of this map, and has no entry that
  -- it did not have at the start.
  pub record IsIndexed (start : Index P) (m : Matching P) : Type 0 where
    pub agrees : Agrees m.order_index (others ++ orders m.side_map)
    pub no_new : (i : ℕ) → Index.lookup i start ≡ none → Index.lookup i m.order_index ≡ none

  erase-no_new :
      (start x : Index P) (j : ℕ)
      → ((i : ℕ) → Index.lookup i start ≡ none → Index.lookup i x ≡ none)
      → (i : ℕ) → Index.lookup i start ≡ none
      → Index.lookup i (Index.erase j x) ≡ none
  erase-no_new start x j h i e = ground (arith, lookup-erase i j x, h i)

  match_loop-IsIndexed_at :
      (start : Index P) (fuel : ℕ) (t : Order P) (lv : Levels P) (x : Index P) (ts : List (Trade P))
      → IsLadder c side lv
      → IsIndexed start (record { incoming = t; side_map = lv; order_index = x; trades = ts })
      → IsIndexed start (
          match_loop c skip fuel
            (record { incoming = t; side_map = lv; order_index = x; trades = ts }))
  match_loop-IsIndexed_at start zero t lv x ts l h = rw (match_loop-zero c skip _) h
  match_loop-IsIndexed_at start (suc fuel) t [] x ts l h =
      rw (match_loop_ended c skip (suc fuel) _ (match_round_empty c skip t x ts)) h
  match_loop-IsIndexed_at start (suc fuel) t ((k, []) ∷ rest) x ts l h = absurd (l.0 refl)
  match_loop-IsIndexed_at start (suc fuel) t ((k, r ∷ q) ∷ rest) x ts l h =
      elim (Bool-cases (t.quantity == 0 || not (accepts c skip t.price r.price))) [
        | inl stop ↦
            rw
              (match_loop_ended c skip (suc fuel) _
                (match_round_stop c skip t r k q rest x ts l.1.0.1 stop))
              h
        | inr fill ↦ elim (Bool-cases (leb r.quantity t.quantity)) [
          | inl whole ↦ rw (match_loop_whole c skip t r k q rest x ts fuel l.1.0.1 fill whole) (
              match_loop-IsIndexed_at start fuel (record t { quantity = t.quantity - r.quantity })
                (keep_level k rest q) (Index.erase r.id x) (ts ++ make_trade t r r.quantity ∷ [])
                (keep_level-IsLadder c side k rest q l.1.1 l.2 l.3)
                (record {
                  agrees = rw (orders-keep_level c side k rest q) (
                      erase-Agrees (Insertion-append_left others (here (q ++ orders rest)))
                        h.agrees);
                  no_new = erase-no_new start x r.id h.no_new;
                }))
          | inr part ↦
              rw (match_loop_part c skip t r k q rest x ts fuel l.1.0.1 fill part) (record {
                agrees =
                    requantify-Agrees
                      (Requantified-append_left others (set_here r (q ++ orders rest) refl))
                      h.agrees;
                no_new = h.no_new;
              })
        ]
      ]

  -- The loop erases from the index exactly the orders that it takes out of the map.
  pub match_loop-IsIndexed :
      (fuel : ℕ) (m : Matching P)
      → IsLadder c side m.side_map
      → Agrees m.order_index (others ++ orders m.side_map)
      → IsIndexed m.order_index (match_loop c skip fuel m)
  match_loop-IsIndexed fuel m l a =
      match_loop-IsIndexed_at m.order_index fuel m.incoming m.side_map m.order_index m.trades l
        (record { agrees = a; no_new = λ i e. e })
