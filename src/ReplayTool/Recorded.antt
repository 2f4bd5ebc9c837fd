-- ===== src/ReplayTool/Recorded.antt =====
-- tools/replay_tool.cpp on a log that src/recording_order_book.cpp wrote.
use leviathan_matching_engin.Prelude.{
  ℕ, ◌≤◌, ◌≡◌, refl, ap, sym, ◌∙◌, Option, some, List, [], ◌∷◌, ◌++◌, All, length, ◌==◌,
  if◌then◌else◌,
}
use mathlib.Core.Option
use leviathan_matching_engin.Price.{Comparator}
use leviathan_matching_engin.Levels.{Levels, depth_levels}
use leviathan_matching_engin.Book.{
  OrderBook, empty_book, top_price, best_bid, best_ask, total_order_count,
}
use leviathan_matching_engin.Recording.{new_recording}
use leviathan_matching_engin.Recording.Calls.{Call, calls, record_calls}
use leviathan_matching_engin.Text.{Text, codes}
use leviathan_matching_engin.Log.{PriceFormat, IsFaithful, log_text}
use leviathan_matching_engin.Untimed.{untimed_levels, untimed_book, length-untimed_trades}
use leviathan_matching_engin.Untimed.Maps.{depth_levels-untimed_levels}
use leviathan_matching_engin.Replay.{replay_from_stream}
use leviathan_matching_engin.Replay.RoundTrip.{replay_recorded}
use leviathan_matching_engin.Bounds.Calls.{FitsCall}
use leviathan_matching_engin.ReplayTool.{
  verification_text, state_text, side_text, warnings_text, finish, main,
}
use leviathan_matching_engin.ReplayTool.Printed.{
  lines_text, book_lines, output-lines, book_text-five,
}

module _ {P : Type 0} where
  top_price-untimed_levels : (m : Levels P) → top_price (untimed_levels m) ≡ top_price m
  top_price-untimed_levels [] = refl
  top_price-untimed_levels ((k, q) ∷ rest) = refl

  best_bid-untimed_book : (b : OrderBook P) → best_bid (untimed_book b) ≡ best_bid b
  unfolding best_bid
  best_bid-untimed_book b = top_price-untimed_levels b.bids

  best_ask-untimed_book : (b : OrderBook P) → best_ask (untimed_book b) ≡ best_ask b
  unfolding best_ask
  best_ask-untimed_book b = top_price-untimed_levels b.asks

  total_order_count-untimed_book :
      (b : OrderBook P) → total_order_count (untimed_book b) ≡ total_order_count b
  unfolding total_order_count
  total_order_count-untimed_book b = refl

  -- What does not look at timestamps is the same on books that differ in nothing else.
  same_reading :
      {A : Type 0} (g : OrderBook P → A) (b b' : OrderBook P)
      → ((a : OrderBook P) → g (untimed_book a) ≡ g a)
      → untimed_book b ≡ untimed_book b'
      → g b ≡ g b'
  same_reading g b b' blind h = sym (blind b) ∙ ap g h ∙ blind b'

module _ {P : Type 0} (f : PriceFormat P) where
  book_lines-untimed_book :
      (n : ℕ) (b : OrderBook P) → book_lines f n (untimed_book b) ≡ book_lines f n b
  book_lines-untimed_book n b =
      rw
        (
          best_bid-untimed_book b,
          best_ask-untimed_book b,
          total_order_count-untimed_book b,
          depth_levels-untimed_levels b.bids 5,
          depth_levels-untimed_levels b.asks 5,
        )
        refl

module _ {P : Type 0} (less : Comparator P) (f : PriceFormat P) (faithful : IsFaithful f)
    (open_file : Text → Option Text) (max_size : ℕ) where
  -- If every id and quantity in some calls is below 2^64, every price is read back from what is
  -- printed of it, and a vector can hold five levels, `replay_tool` on a file with the text of the
  -- log of a new `RecordingOrderBook` after the calls exits with 0, writes no error, and prints
  -- the lines that are written out in `book_lines`: as many trades replayed, logged and matched as
  -- the plain calls return, and the best bid, best ask, order count and first five levels of the
  -- bids and the asks of the recorded book.
  pub main-recorded :
      (counter counter' : ℕ) (cs : List (Call P)) (path : Text) (rest : List Text)
      → 5 ≤ max_size
      → All FitsCall cs
      → let r = record_calls less (λ (p : P). p) counter new_recording cs in
        let n = length (calls less counter empty_book cs).1 in
        open_file path ≡ some (log_text f r.log)
        → main less f open_file max_size counter' (path ∷ rest)
          ≡ some (record { output = lines_text (book_lines f n r.book); errors = []; status = 0 })
  unfolding main
  main-recorded counter counter' cs path rest room fits opened =
      let r = record_calls less (λ (p : P). p) counter new_recording cs in
      let trades = (calls less counter empty_book cs).1 in
      let n = length trades in
      let result = replay_from_stream less f counter' (log_text f r.log) in
      let (same_book, replayed, logged, matched, silent) =
        replay_recorded less f faithful counter counter' cs fits in
      let as_many : length result.0.replayed_trades ≡ n =
        sym (length-untimed_trades result.0.replayed_trades)
        ∙ ap length replayed
        ∙ length-untimed_trades trades in
      let as_many_logged : length result.0.logged_trades ≡ n =
        ap length logged ∙ length-untimed_trades trades in
      let state =
        state_text f result.0.book
          (side_text f (codes "BIDS (highest first)") (depth_levels result.0.book.bids 5))
          (side_text f (codes "ASKS (lowest first)") (depth_levels result.0.book.asks 5)) in
      let output =
        output-lines f n result.0.book (depth_levels result.0.book.bids 5)
          (depth_levels result.0.book.asks 5)
        ∙ ap lines_text (
            same_reading (book_lines f n) result.0.book r.book (book_lines-untimed_book f n)
              same_book) in
      ap (λ o. finish f max_size path (Option.map (replay_from_stream less f counter') o)) opened
      ∙ ap
          (λ (o : Option Text).
            Option.map
              (λ (text : Text). record {
                output = text;
                errors = warnings_text f result.1;
                status = if result.0.mismatch_count == 0 then 0 else 1;
              })
              (Option.map
                (λ (text : Text).
                  verification_text f (length result.0.replayed_trades)
                    (length result.0.logged_trades) result.0.mismatch_count result.0.mismatch_report
                  ++ text)
                o))
          (book_text-five f max_size result.0.book room)
      ∙ (λ i. some (record {
        output =
            verification_text f (as_many i) (as_many_logged i) (matched i) result.0.mismatch_report
            ++ state;
        errors = warnings_text f (silent i);
        status = if matched i == 0 then 0 else 1;
      }))
      ∙ (λ i. some (record { output = output i; errors = []; status = 0 }))
