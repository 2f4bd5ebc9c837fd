-- ===== src/Recording.antt =====
-- The class `RecordingOrderBook` of src/recording_order_book.cpp and the log lines of
-- include/event_log.hpp. A line is its sequence number and its fields; how the stream prints a price
-- is a parameter, and `T` is the type of the printed prices.
pub mod Calls
pub mod Holds
pub mod Completeness
use leviathan_matching_engin.Prelude.{ℕ, ◌+◌, ◌%◌, Bool, Option, none, some, List, [], ◌∷◌, ◌++◌}
use leviathan_matching_engin.Price.{Comparator}
use leviathan_matching_engin.Order.{
  Side, buy, sell, OrderType, limit, market, ioc, fok, Order, Trade, uint64_limit,
}
use leviathan_matching_engin.Book.{OrderBook, empty_book, best_bid, best_ask, total_order_count}
use leviathan_matching_engin.Operations.{add_order, cancel_order, submit_order, modify_order}

-- The fields of a line behind its sequence number, by tag.
pub data LogEvent (T : Type 0) : Type 0 where
  add_event : (order_id side : ℕ) (price : T) (quantity order_type : ℕ) → LogEvent T
  cancel_event : (order_id : ℕ) → LogEvent T
  modify_event : (order_id : ℕ) (new_price : T) (new_quantity : ℕ) → LogEvent T
  submit_event : (order_id side : ℕ) (price : T) (quantity order_type : ℕ) → LogEvent T
  trade_event : (buy_order_id sell_order_id : ℕ) (price : T) (quantity : ℕ) → LogEvent T

pub record LogLine (T : Type 0) : Type 0 where
  pub seq : ℕ
  pub event : LogEvent T

pub record RecordingOrderBook (P T : Type 0) : Type 0 where
  pub book : OrderBook P
  pub log : List (LogLine T)
  pub next_seq : ℕ

-- `static_cast<int>` of the two enumerations.
abbrev pub side_code : Side → ℕ
side_code buy = 0
side_code sell = 1

abbrev pub type_code : OrderType → ℕ
type_code limit = 0
type_code market = 1
type_code ioc = 2
type_code fok = 3

module _ {P T : Type 0} where
  abbrev pub new_recording : RecordingOrderBook P T
  new_recording = record { book = empty_book; log = []; next_seq = 0 }

  -- A line with the number that `nextSeq` draws.
  unfoldable pub log_event : LogEvent T → RecordingOrderBook P T → RecordingOrderBook P T
  log_event event r = record r {
    log = r.log ++ record { seq = r.next_seq; event = event } ∷ [];
    next_seq = (r.next_seq + 1) % uint64_limit;
  }

  abbrev recording_best_bid : RecordingOrderBook P T → Option P
  recording_best_bid r = best_bid r.book

  abbrev recording_best_ask : RecordingOrderBook P T → Option P
  recording_best_ask r = best_ask r.book

  abbrev recording_total_order_count : RecordingOrderBook P T → ℕ
  recording_total_order_count r = total_order_count r.book

module _ {P T : Type 0} (print : P → T) where
  abbrev pub trade_entry : Trade P → LogEvent T
  trade_entry t = trade_event t.buy_order_id t.sell_order_id (print t.price) t.quantity

  unfoldable pub log_trades : List (Trade P) → RecordingOrderBook P T → RecordingOrderBook P T
  log_trades [] r = r
  log_trades (t ∷ trades) r = log_trades trades (log_event (trade_entry t) r)

  -- `logTrades` of a result that `modifyOrder` may lack.
  abbrev pub log_result : Option (List (Trade P)) → RecordingOrderBook P T → RecordingOrderBook P T
  log_result none r = r
  log_result (some trades) r = log_trades trades r

module _ {P T : Type 0} (less : Comparator P) (print : P → T) where
  unfoldable pub recording_add_order : RecordingOrderBook P T → Order P → RecordingOrderBook P T
  recording_add_order r order =
      let r' =
        log_event
          (add_event order.id (side_code order.side) (print order.price) order.quantity
            (type_code order.type))
          r in
      record r' { book = add_order less r'.book order }

  unfoldable pub recording_cancel_order : RecordingOrderBook P T → ℕ → RecordingOrderBook P T × Bool
  recording_cancel_order r order_id =
      let r' = log_event (cancel_event order_id) r in
      let (b, removed) = cancel_order less r'.book order_id in (record r' { book = b }, removed)

  unfoldable pub recording_submit_order :
      RecordingOrderBook P T → Order P → RecordingOrderBook P T × List (Trade P)
  recording_submit_order r order =
      let r' =
        log_event
          (submit_event order.id (side_code order.side) (print order.price) order.quantity
            (type_code order.type))
          r in
      let (b, trades) = submit_order less r'.book order in
      (log_trades print trades (record r' { book = b }), trades)

  unfoldable pub recording_modify_order :
      ℕ → RecordingOrderBook P T → ℕ → P → ℕ → RecordingOrderBook P T × Option (List (Trade P)) × ℕ
  recording_modify_order counter r order_id new_price new_quantity =
      let r' = log_event (modify_event order_id (print new_price) new_quantity) r in
      let (b, result, counter') =
        modify_order less counter r'.book order_id new_price new_quantity in
      (log_result print result (record r' { book = b }), result, counter')
