-- ===== src/Replay.antt =====
-- The functions of src/replay.cpp: a log is read line by line, each line's operation is done again on a
-- new book, and the trades are compared with those of the log. How a `double` is read, and the test
-- on two prices, are the parameter of Log.antt.
pub mod Comparison
pub mod Parsing
pub mod Reading
pub mod Lines
pub mod Events
pub mod Session
pub mod RoundTrip
use leviathan_matching_engin.Prelude.{
  ℕ, suc, ◌%◌, Bool, not, ◌||◌, Option, none, some, List, [], ◌∷◌, ◌++◌, ◌==◌, if◌then◌else◌,
}
use mathlib.Core.Option
use leviathan_matching_engin.Price.{Comparator}
use leviathan_matching_engin.Order.{
  Side, buy, sell, OrderType, limit, market, ioc, fok, Order, Trade, make_order,
}
use leviathan_matching_engin.Book.{OrderBook, empty_book}
use leviathan_matching_engin.Operations.{add_order, cancel_order, submit_order, modify_order}
use leviathan_matching_engin.Recording.{
  LogEvent, add_event, cancel_event, modify_event, submit_event, trade_event,
}
use leviathan_matching_engin.Text.{Text, codes, print_nat, same_text, take_until, split_lines}
use leviathan_matching_engin.Log.{
  PriceFormat, order_fields, cancel_fields, modify_fields, trade_fields,
}

-- An entry of the report, with the trade's place.
pub data Mismatch (P : Type 0) : Type 0 where
  missing : (place : ℕ) (logged : Trade P) → Mismatch P
  extra : (place : ℕ) (replayed : Trade P) → Mismatch P
  mismatch : (place : ℕ) (logged replayed : Trade P) → Mismatch P

module _ {P : Type 0} (far : P → P → Bool) where
  -- The test of the loop on two trades at one place; timestamps are not compared.
  abbrev pub differ : Trade P → Trade P → Bool
  differ r l =
      not (r.buy_order_id == l.buy_order_id)
      || not (r.sell_order_id == l.sell_order_id)
      || far r.price l.price
      || not (r.quantity == l.quantity)

  -- The loop over the places from `i` on: the report.
  unfoldable pub report : ℕ → List (Trade P) → List (Trade P) → List (Mismatch P)
  report i [] [] = []
  report i [] (l ∷ logged) = missing i l ∷ report (suc i) [] logged
  report i (r ∷ replayed) [] = extra i r ∷ report (suc i) replayed []
  report i (r ∷ replayed) (l ∷ logged) =
      let rest = report (suc i) replayed logged in
      if differ r l then mismatch i l r ∷ rest else rest

  -- The count that the loop keeps besides.
  unfoldable pub mismatches : List (Trade P) → List (Trade P) → ℕ
  mismatches [] [] = 0
  mismatches [] (l ∷ logged) = suc (mismatches [] logged)
  mismatches (r ∷ replayed) [] = suc (mismatches replayed [])
  mismatches (r ∷ replayed) (l ∷ logged) =
      let rest = mismatches replayed logged in if differ r l then suc rest else rest

module _ {P : Type 0} (f : PriceFormat P) where
  abbrev trade_text : Trade P → Text
  trade_text t =
      codes "buy="
      ++ (print_nat t.buy_order_id
          ++ (codes " sell="
              ++ (print_nat t.sell_order_id
                  ++ (codes " price="
                      ++ (f.show t.price ++ (codes " qty=" ++ print_nat t.quantity))))))

  -- What the loop writes to the report for one mismatch.
  abbrev pub mismatch_text : Mismatch P → Text
  mismatch_text (missing i l) =
      codes "Trade #"
      ++ (print_nat i ++ (codes ": MISSING in replay (logged: " ++ (trade_text l ++ codes ")\n")))
  mismatch_text (extra i r) =
      codes "Trade #"
      ++ (print_nat i ++ (codes ": EXTRA in replay (replay: " ++ (trade_text r ++ codes ")\n")))
  mismatch_text (mismatch i l r) =
      codes "Trade #"
      ++ (print_nat i
          ++ (codes ": MISMATCH\n  Logged:   "
              ++ (trade_text l ++ (codes "\n  Replayed: " ++ (trade_text r ++ codes "\n")))))

  abbrev pub report_text : List (Mismatch P) → Text
  report_text [] = []
  report_text (m ∷ ms) = mismatch_text m ++ report_text ms

-- The variables that `parseLine` works on: the book and the two lists of trades, the process-wide
-- timestamp counter, and the lines written to `std::cerr`.
pub record Replaying (P : Type 0) : Type 0 where
  pub book : OrderBook P
  pub replayed_trades : List (Trade P)
  pub logged_trades : List (Trade P)
  pub counter : ℕ
  pub warnings : List Text

pub record ReplayResult (P : Type 0) : Type 0 where
  pub book : OrderBook P
  pub replayed_trades : List (Trade P)
  pub logged_trades : List (Trade P)
  pub mismatch_count : ℕ
  pub mismatch_report : Text

-- `static_cast` of an `int` to the enumerations over `uint8_t`. The book tests a side only for BUY,
-- and a type only for LIMIT, MARKET and FOK: any other number acts as SELL, or as IOC.
abbrev pub side_of_int : ℕ → Side
side_of_int n = if n % 256 == 0 then buy else sell

abbrev pub type_of_int : ℕ → OrderType
type_of_int n =
    if n % 256 == 0
    then limit
    else (if n % 256 == 1 then market else (if n % 256 == 3 then fok else ioc))

-- A line without its trailing \r.
abbrev pub strip_return : Text → Text
strip_return [] = []
strip_return (c ∷ []) = if c == b'\r' then [] else c ∷ []
strip_return (c ∷ d ∷ s) = c ∷ strip_return (d ∷ s)

module _ {P : Type 0} where
  abbrev pub new_replaying : ℕ → Replaying P
  new_replaying counter = record {
    book = empty_book;
    replayed_trades = [];
    logged_trades = [];
    counter = counter;
    warnings = [];
  }

  abbrev pub warn : Text → Text → Replaying P → Replaying P
  warn tag line st = record st {
    warnings =
        st.warnings
        ++ (codes "[WARN] Malformed " ++ (tag ++ (codes " line, skipping: " ++ line))) ∷ [];
  }

  -- The trades of a result that `modifyOrder` may lack, behind those that there are.
  abbrev pub append_result : List (Trade P) → Option (List (Trade P)) → List (Trade P)
  append_result trades none = trades
  append_result trades (some more) = trades ++ more

module _ {P : Type 0} (less : Comparator P) where
  -- What `parseLine` does with the fields of a line.
  unfoldable pub perform : LogEvent P → Replaying P → Replaying P
  perform (add_event order_id side price quantity type) st =
      let (order, counter') =
        make_order st.counter order_id (side_of_int side) price quantity (type_of_int type) in
      record st { book = add_order less st.book order; counter = counter' }
  perform (cancel_event order_id) st = record st { book = (cancel_order less st.book order_id).0 }
  perform (submit_event order_id side price quantity type) st =
      let (order, counter') =
        make_order st.counter order_id (side_of_int side) price quantity (type_of_int type) in
      let (b, trades) = submit_order less st.book order in
      record st { book = b; replayed_trades = st.replayed_trades ++ trades; counter = counter' }
  perform (modify_event order_id new_price new_quantity) st =
      let (b, result, counter') =
        modify_order less st.counter st.book order_id new_price new_quantity in
      record st {
        book = b;
        replayed_trades = append_result st.replayed_trades result;
        counter = counter';
      }
  perform (trade_event buy_id sell_id price quantity) st = record st {
    logged_trades =
        st.logged_trades
        ++ record {
          buy_order_id = buy_id;
          sell_order_id = sell_id;
          price = price;
          quantity = quantity;
          timestamp = 0;
        }
          ∷ [];
  }

  -- The same, or a warning where an extraction failed.
  unfoldable pub perform_read : Text → Text → Replaying P → Option (LogEvent P) → Replaying P
  perform_read tag line st none = warn tag line st
  perform_read tag line st (some event) = perform event st

module _ {P : Type 0} (less : Comparator P) (f : PriceFormat P) where
  -- `parseLine` behind the tag.
  unfoldable pub parse_tagged : Text → Text → Text → Replaying P → Replaying P
  parse_tagged tag rest line st =
      if same_text tag (codes "ADD")
      then perform_read less tag line st
          (Option.map (λ x. add_event x.0.1 x.0.2 x.0.3 x.0.4 x.0.5) (order_fields f rest))
      else (if same_text tag (codes "CANCEL")
          then perform_read less tag line st
              (Option.map (λ x. cancel_event x.0.1) (cancel_fields f rest))
          else (if same_text tag (codes "SUBMIT")
              then perform_read less tag line st (
                  Option.map (λ x. submit_event x.0.1 x.0.2 x.0.3 x.0.4 x.0.5)
                    (order_fields f rest))
              else (if same_text tag (codes "MODIFY")
                  then perform_read less tag line st
                      (Option.map (λ x. modify_event x.0.1 x.0.2 x.0.3) (modify_fields f rest))
                  else (if same_text tag (codes "TRADE")
                      then perform_read less tag line st (
                          Option.map (λ x. trade_event x.0.1 x.0.2 x.0.3 x.0.4)
                            (trade_fields f rest))
                      else st))))

  unfoldable pub parse_line : Text → Replaying P → Replaying P
  parse_line [] st = st
  parse_line (c ∷ s) st =
      let (tag, rest) = take_until b',' (c ∷ s) in parse_tagged tag rest (c ∷ s) st

  -- The loop of `replayFromStream`.
  unfoldable pub replay_lines : List Text → Replaying P → Replaying P
  replay_lines [] st = st
  replay_lines (line ∷ lines) st = replay_lines lines (parse_line (strip_return line) st)

  -- `compareTrades` of what was replayed.
  abbrev pub compare_trades : Replaying P → ReplayResult P
  compare_trades st = record {
    book = st.book;
    replayed_trades = st.replayed_trades;
    logged_trades = st.logged_trades;
    mismatch_count = mismatches f.far st.replayed_trades st.logged_trades;
    mismatch_report = report_text f (report f.far 0 st.replayed_trades st.logged_trades);
  }

  -- The result, and what was written to `std::cerr`.
  unfoldable pub replay_from_stream : ℕ → Text → ReplayResult P × List Text
  replay_from_stream counter input =
      let st = replay_lines (split_lines input) (new_replaying counter) in
      (compare_trades st, st.warnings)

  -- `replayFromFile`: the content of the file at a path, or none if it cannot be opened, is what the
  -- file system gives. The result is none where the source throws.
  abbrev pub replay_from_file :
      (Text → Option Text) → ℕ → Text → Option (ReplayResult P × List Text)
  replay_from_file open_file counter path = Option.map (replay_from_stream counter) (open_file path)
