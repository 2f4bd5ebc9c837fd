-- ===== src/Tests/Runs.antt =====
-- Runs of the operations of src/order_book.cpp on the sample book.
use leviathan_matching_engin.Prelude.{◌≡◌, refl, true, some, [], ◌∷◌}
use leviathan_matching_engin.Price.{ticks}
use leviathan_matching_engin.Order.{buy, sell, limit, fok}
use leviathan_matching_engin.Index
use leviathan_matching_engin.Levels.{
  push_back, alter_level, find_level, find_order_in_deque, erase_from_side, preview_levels,
  can_fully_fill_from_map,
}
use leviathan_matching_engin.Book.{empty_book}
use leviathan_matching_engin.Matching.{fill_front, match_round, match_loop, run_matching}
use leviathan_matching_engin.Operations.{
  add_order, cancel_order, can_fully_fill, execute, submit_order, modify_order,
}
use leviathan_matching_engin.Tests.Sample.{order, sample, taker}

add_order_run :
    add_order ticks
      (add_order ticks empty_book (order 1 sell 101 5 0 limit))
      (order 2 sell 100 3 1 limit)
    ≡ record {
      bids = [];
      asks = (100, order 2 sell 100 3 1 limit ∷ []) ∷ (101, order 1 sell 101 5 0 limit ∷ []) ∷ [];
      order_index =
          (1, record { side = sell; price = 101 }) ∷ (2, record { side = sell; price = 100 }) ∷ [];
    }
unfolding add_order push_back Index.insert
add_order_run = refl

cancel_order_run : (cancel_order ticks sample 2).1 ≡ true
unfolding cancel_order erase_from_side alter_level Index.lookup
cancel_order_run = refl

limit_run : submit_order ticks sample (taker limit) ≡ (
  record {
    bids = (99, order 4 buy 99 10 3 limit ∷ []) ∷ [];
    asks = (103, order 3 sell 103 5 2 limit ∷ []) ∷ [];
    order_index =
        (3, record { side = sell; price = 103 }) ∷ (4, record { side = buy; price = 99 }) ∷ [];
  },
  record { buy_order_id = 9; sell_order_id = 1; price = 101; quantity = 5; timestamp = 4 }
      ∷ record { buy_order_id = 9; sell_order_id = 2; price = 101; quantity = 3; timestamp = 4 }
      ∷ record { buy_order_id = 9; sell_order_id = 3; price = 103; quantity = 2; timestamp = 4 }
      ∷ [],
)
unfolding submit_order execute run_matching match_loop match_round fill_front Index.erase
limit_run = refl

-- A FOK order for more than the book can fill.
fok_run : submit_order ticks sample (order 9 buy 103 16 4 fok) ≡ (sample, [])
unfolding submit_order can_fully_fill can_fully_fill_from_map preview_levels
fok_run = refl

modify_run :
    modify_order ticks 7 sample 4 99 6
    ≡ (record sample { bids = (99, order 4 buy 99 6 3 limit ∷ []) ∷ [] }, some [], 7)
unfolding modify_order find_order_in_deque find_level alter_level Index.lookup
modify_run = refl
