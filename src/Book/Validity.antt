-- ===== src/Book/Validity.antt =====
-- The invariant of the class `OrderBook`, include/order_book.hpp: both side maps have their shape, and
-- the index has exactly one entry for each resting order, at its side and price.
use leviathan_matching_engin.Prelude.{◌≡◌, refl, List, ◌++◌, arith}
use leviathan_matching_engin.Price.{Comparator, greater}
use leviathan_matching_engin.Order.{Side, buy, sell, Order, opposite}
use leviathan_matching_engin.Index
use leviathan_matching_engin.Index.{Index}
use leviathan_matching_engin.Index.Agrees.{Agrees, swap-Agrees}
use leviathan_matching_engin.Levels.{Levels, orders}
use leviathan_matching_engin.Levels.Ladder.{IsLadder}
use leviathan_matching_engin.Book.{OrderBook, side_map, set_side, comparator, empty_book}

module _ {P : Type 0} where
  -- The resting orders of one side, and then those of the other, each best first.
  abbrev pub resting_from : Side → OrderBook P → List (Order P)
  resting_from s b = orders (side_map s b) ++ orders (side_map (opposite s) b)

  pub set_side-index :
      (s : Side) (m : Levels P) (x : Index P) (b : OrderBook P) → (set_side s m x b).order_index ≡ x
  set_side-index buy m x b = refl
  set_side-index sell m x b = refl

module _ {P : Type 0} (less : Comparator P) where
  pub record IsValid (b : OrderBook P) : Type 0 where
    pub bids_ladder : IsLadder (greater less) buy b.bids
    pub asks_ladder : IsLadder less sell b.asks
    pub indexed : Agrees b.order_index (resting_from buy b)

  pub empty_book-IsValid : IsValid empty_book
  unfolding Index.lookup
  empty_book-IsValid = record {
    bids_ladder = tt;
    asks_ladder = tt;
    indexed = record {
      located = λ i. refl;
      unique = λ i. omega arith;
      distinct = tt;
      counted = refl;
    };
  }

  pub side-IsLadder :
      (s : Side) {b : OrderBook P} → IsValid b → IsLadder (comparator less s) s (side_map s b)
  side-IsLadder buy v = v.bids_ladder
  side-IsLadder sell v = v.asks_ladder

  pub side-Agrees :
      (s : Side) {b : OrderBook P} → IsValid b → Agrees b.order_index (resting_from s b)
  side-Agrees buy v = v.indexed
  side-Agrees sell {b} v = swap-Agrees (orders b.bids) (orders b.asks) v.indexed

  pub set_side-IsValid :
      (s : Side) (m : Levels P) (x : Index P) (b : OrderBook P)
      → IsValid b
      → IsLadder (comparator less s) s m
      → Agrees x (orders m ++ orders (side_map (opposite s) b))
      → IsValid (set_side s m x b)
  set_side-IsValid buy m x b v l a = record {
    bids_ladder = l;
    asks_ladder = v.asks_ladder;
    indexed = a;
  }
  set_side-IsValid sell m x b v l a = record {
    bids_ladder = v.bids_ladder;
    asks_ladder = l;
    indexed = swap-Agrees (orders m) (orders b.bids) a;
  }

  -- A write to the other side's map.
  pub set_opposite-IsValid :
      (s : Side) (m : Levels P) (x : Index P) (b : OrderBook P)
      → IsValid b
      → IsLadder (comparator less (opposite s)) (opposite s) m
      → Agrees x (orders (side_map s b) ++ orders m)
      → IsValid (set_side (opposite s) m x b)
  set_opposite-IsValid buy m x b v l a = record {
    bids_ladder = v.bids_ladder;
    asks_ladder = l;
    indexed = a;
  }
  set_opposite-IsValid sell m x b v l a = record {
    bids_ladder = l;
    asks_ladder = v.asks_ladder;
    indexed = swap-Agrees (orders b.asks) (orders m) a;
  }
