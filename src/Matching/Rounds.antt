-- ===== src/Matching/Rounds.antt =====
-- One round of the matching loop of src/order_book.cpp, branch by branch.
use leviathan_matching_engin.Prelude.{
  ℕ, zero, suc, ◌-◌, ◌≤◌, ◌<◌, ◌≡◌, refl, ap, ◌∙◌, Bool, true, false, not, ◌||◌, none, some, List,
  [], ◌∷◌, ◌++◌, ◌==◌, leb, arith,
}
use leviathan_matching_engin.Price.{Comparator}
use leviathan_matching_engin.Order.{Order, Trade}
use leviathan_matching_engin.Index
use leviathan_matching_engin.Index.{Index}
use leviathan_matching_engin.Levels.{Levels, keep_level}
use leviathan_matching_engin.Matching.{Matching, make_trade, fill_front, match_round, match_loop}
use leviathan_matching_engin.Matching.Priority.{accepts}

module _ {P : Type 0} where
  -- A front order that the taker can fill whole leaves the deque and the index.
  pub fill_front_whole :
      (m : Matching P) (k : P) (r : Order P) (q : List (Order P)) (rest : Levels P)
      → r.quantity ≤ m.incoming.quantity
      → fill_front m k r q rest ≡ record {
        incoming = record m.incoming { quantity = m.incoming.quantity - r.quantity };
        side_map = keep_level k rest q;
        order_index = Index.erase r.id m.order_index;
        trades = m.trades ++ make_trade m.incoming r r.quantity ∷ [];
      }
  unfolding fill_front
  fill_front_whole m k r q rest h = ground arith

  -- A larger one fills the taker and keeps the difference.
  pub fill_front_part :
      (m : Matching P) (k : P) (r : Order P) (q : List (Order P)) (rest : Levels P)
      → m.incoming.quantity < r.quantity
      → fill_front m k r q rest ≡ record {
        incoming = record m.incoming { quantity = 0 };
        side_map = (k, record r { quantity = r.quantity - m.incoming.quantity } ∷ q) ∷ rest;
        order_index = m.order_index;
        trades = m.trades ++ make_trade m.incoming r m.incoming.quantity ∷ [];
      }
  unfolding fill_front
  fill_front_part m k r q rest h = ground arith

module _ {P : Type 0} (c : Comparator P) (skip : Bool) where
  pub match_round_filled : (m : Matching P) → m.incoming.quantity ≡ 0 → match_round c skip m ≡ none
  unfolding match_round
  match_round_filled m h = ground arith

  pub match_round_empty :
      (t : Order P) (x : Index P) (ts : List (Trade P))
      → match_round c skip (record { incoming = t; side_map = []; order_index = x; trades = ts })
        ≡ none
  unfolding match_round
  match_round_empty t x ts = ground arith

  pub match_loop-zero : (m : Matching P) → match_loop c skip zero m ≡ m
  unfolding match_loop
  match_loop-zero m = refl

  pub match_loop_ended :
      (fuel : ℕ) (m : Matching P) → match_round c skip m ≡ none → match_loop c skip fuel m ≡ m
  unfolding match_loop
  match_loop_ended zero m h = refl
  match_loop_ended (suc fuel) m h = rw (h, match_loop)

  pub match_loop_step :
      (fuel : ℕ) (m m' : Matching P)
      → match_round c skip m ≡ some m'
      → match_loop c skip (suc fuel) m ≡ match_loop c skip fuel m'
  unfolding match_loop
  match_loop_step fuel m m' h = rw (h, match_loop)

  -- Where the round stops, the specification stops too.
  pub match_round_stop :
      (t r : Order P) (k : P) (q : List (Order P)) (rest : Levels P) (x : Index P)
      (ts : List (Trade P))
      → r.price ≡ k
      → (t.quantity == 0 || not (accepts c skip t.price r.price)) ≡ true
      → match_round c skip
          (record { incoming = t; side_map = (k, r ∷ q) ∷ rest; order_index = x; trades = ts })
        ≡ none
  unfolding match_round
  match_round_stop t r k q rest x ts p h = ground arith

  pub match_round_fill :
      (t r : Order P) (k : P) (q : List (Order P)) (rest : Levels P) (x : Index P)
      (ts : List (Trade P))
      → r.price ≡ k
      → (t.quantity == 0 || not (accepts c skip t.price r.price)) ≡ false
      → let m : Matching P = record {
        incoming = t;
        side_map = (k, r ∷ q) ∷ rest;
        order_index = x;
        trades = ts;
      } in
        match_round c skip m ≡ some (fill_front m k r q rest)
  unfolding match_round
  match_round_fill t r k q rest x ts p h = ground arith

  module _ (t r : Order P) (k : P) (q : List (Order P)) (rest : Levels P) (x : Index P)
      (ts : List (Trade P)) where
    abbrev pub before : Matching P
    before = record { incoming = t; side_map = (k, r ∷ q) ∷ rest; order_index = x; trades = ts }

    abbrev pub after_whole : Matching P
    after_whole = record {
      incoming = record t { quantity = t.quantity - r.quantity };
      side_map = keep_level k rest q;
      order_index = Index.erase r.id x;
      trades = ts ++ make_trade t r r.quantity ∷ [];
    }

    abbrev pub after_part : Matching P
    after_part = record {
      incoming = record t { quantity = 0 };
      side_map = (k, record r { quantity = r.quantity - t.quantity } ∷ q) ∷ rest;
      order_index = x;
      trades = ts ++ make_trade t r t.quantity ∷ [];
    }

    pub match_loop_whole :
        (fuel : ℕ)
        → r.price ≡ k
        → (t.quantity == 0 || not (accepts c skip t.price r.price)) ≡ false
        → leb r.quantity t.quantity ≡ true
        → match_loop c skip (suc fuel) before ≡ match_loop c skip fuel after_whole
    match_loop_whole fuel p fill whole =
        match_loop_step fuel before _ (match_round_fill t r k q rest x ts p fill)
        ∙ ap (match_loop c skip fuel) (fill_front_whole before k r q rest (ground arith))

    pub match_loop_part :
        (fuel : ℕ)
        → r.price ≡ k
        → (t.quantity == 0 || not (accepts c skip t.price r.price)) ≡ false
        → leb r.quantity t.quantity ≡ false
        → match_loop c skip (suc fuel) before ≡ after_part
    match_loop_part fuel p fill part =
        match_loop_step fuel before _ (match_round_fill t r k q rest x ts p fill)
        ∙ ap (match_loop c skip fuel) (fill_front_part before k r q rest (ground arith))
        ∙ match_loop_ended fuel after_part (match_round_filled after_part refl)
