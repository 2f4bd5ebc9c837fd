-- ===== src/Tests/Sample.antt =====
-- A sample state of the class `OrderBook`, include/order_book.hpp, with prices in whole ticks.
use leviathan_matching_engin.Prelude.{ℕ, refl, [], ◌∷◌, arith}
use leviathan_matching_engin.Price.{ticks}
use leviathan_matching_engin.Order.{Side, buy, sell, Order, OrderType, limit}
use leviathan_matching_engin.Index
use leviathan_matching_engin.Index.Agrees.{Agrees}
use leviathan_matching_engin.Book.{OrderBook}
use leviathan_matching_engin.Book.Validity.{IsValid, resting_from}

abbrev pub order : ℕ → Side → ℕ → ℕ → ℕ → OrderType → Order ℕ
order id side price quantity timestamp type = record {
  id = id;
  side = side;
  price = price;
  quantity = quantity;
  timestamp = timestamp;
  type = type;
}

-- One bid level and two ask levels, the first of them with two orders.
abbrev pub sample : OrderBook ℕ
sample = record {
  bids = (99, order 4 buy 99 10 3 limit ∷ []) ∷ [];
  asks =
      (101, order 1 sell 101 5 0 limit ∷ order 2 sell 101 3 1 limit ∷ [])
      ∷ (103, order 3 sell 103 7 2 limit ∷ [])
      ∷ [];
  order_index =
      (1, record { side = sell; price = 101 })
      ∷ (2, record { side = sell; price = 101 })
      ∷ (3, record { side = sell; price = 103 })
      ∷ (4, record { side = buy; price = 99 })
      ∷ [];
}

sample-Agrees : Agrees sample.order_index (resting_from buy sample)
unfolding Index.lookup
sample-Agrees = record {
  located = λ i. ground arith;
  unique = λ i. ground arith;
  distinct = (refl, (refl, (refl, (refl, tt))));
  counted = refl;
}

pub sample-IsValid : IsValid ticks sample
sample-IsValid = record {
  bids_ladder = (λ e. cc, ((refl, refl, omega arith), tt), tt, tt);
  asks_ladder = (
    λ e. cc,
    ((refl, refl, omega arith), ((refl, refl, omega arith), tt)),
    (refl, tt),
    (λ e. cc, ((refl, refl, omega arith), tt), tt, tt),
  );
  indexed = sample-Agrees;
}

-- An incoming buy order that takes the first ask level and part of the second.
abbrev pub taker : OrderType → Order ℕ
taker type = order 9 buy 103 10 4 type
