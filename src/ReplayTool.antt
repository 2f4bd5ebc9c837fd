-- ===== src/ReplayTool.antt =====
-- The program tools/replay_tool.cpp: its output and exit status for its arguments. Which file stands at a
-- path, and what it holds, is a parameter.
use leviathan_matching_engin.Prelude.{
  ℕ, zero, suc, ◌-◌, Option, none, some, List, [], ◌∷◌, ◌++◌, ◌==◌, length, if◌then◌else◌,
}
use mathlib.Core.Option
use leviathan_matching_engin.Price.{Comparator}
use leviathan_matching_engin.Order.{Side, buy, sell, Trade}
use leviathan_matching_engin.Levels.{PriceLevel}
use leviathan_matching_engin.Book.{OrderBook, best_bid, best_ask, total_order_count, get_depth}
use leviathan_matching_engin.Text.{Text, codes, print_nat}
use leviathan_matching_engin.Log.{PriceFormat}
use leviathan_matching_engin.Replay.{ReplayResult, replay_from_file}
pub mod Printed
pub mod Recorded

-- What a run writes to the two streams, and its exit status.
pub record Outcome : Type 0 where
  pub output : Text
  pub errors : Text
  pub status : ℕ

abbrev pub concat_text : List Text → Text
concat_text [] = []
concat_text (t ∷ ts) = t ++ concat_text ts

abbrev pub repeat : ℕ → ℕ → Text
repeat zero c = []
repeat (suc n) c = c ∷ repeat n c

-- `std::left << std::setw(w)`.
abbrev pub pad : ℕ → Text → Text
pad w s = s ++ repeat (w - length s) b' '

module _ {P : Type 0} (f : PriceFormat P) where
  abbrev level_text : PriceLevel P → Text
  level_text l =
      codes "    "
      ++ (pad 16 (f.print l.price)
          ++ (pad 16 (print_nat l.aggregate_quantity)
              ++ (pad 12 (print_nat l.order_count) ++ codes "\n")))

  abbrev pub level_texts : List (PriceLevel P) → Text
  level_texts [] = []
  level_texts (l ∷ ls) = level_text l ++ level_texts ls

  abbrev levels_text : List (PriceLevel P) → Text
  levels_text [] = codes "    (empty)\n"
  levels_text (l ∷ ls) =
      codes "    "
      ++ (pad 16 (codes "Price")
          ++ (pad 16 (codes "Agg Quantity")
              ++ (pad 12 (codes "Orders")
                  ++ (codes "\n    " ++ (repeat 44 b'-' ++ (codes "\n" ++ level_texts (l ∷ ls)))))))

  abbrev pub side_text : Text → List (PriceLevel P) → Text
  side_text label levels =
      codes "  "
      ++ (label
          ++ (codes " ("
              ++ (print_nat (length levels) ++ (codes " levels):\n" ++ levels_text levels))))

  -- `printDepthSide`, or `none` where `getDepth` throws.
  abbrev pub depth_side_text : ℕ → OrderBook P → Side → Text → ℕ → Option Text
  depth_side_text max_size b side label max_levels =
      Option.map (side_text label) (get_depth max_size b side max_levels)

  abbrev pub price_text : Option P → Text
  price_text none = codes "none"
  price_text (some p) = f.print p

  -- The state of the book and the market depth, of which the two sides are given.
  abbrev pub state_text : OrderBook P → Text → Text → Text
  state_text b bids asks = concat_text (
      codes "\n=== FINAL BOOK STATE ===\nBest Bid:     "
      ∷ price_text (best_bid b)
      ∷ codes "\nBest Ask:     "
      ∷ price_text (best_ask b)
      ∷ codes "\nTotal Orders: "
      ∷ print_nat (total_order_count b)
      ∷ codes "\n\n=== MARKET DEPTH (top 5 levels) ===\n"
      ∷ bids
      ∷ codes "\n"
      ∷ asks
      ∷ codes "\n"
      ∷ [])

  abbrev pub book_text : ℕ → OrderBook P → Option Text
  book_text max_size b = elim (depth_side_text max_size b buy (codes "BIDS (highest first)") 5) [
    | none ↦ none
    | some bids ↦
        Option.map (state_text b bids)
          (depth_side_text max_size b sell (codes "ASKS (lowest first)") 5)
  ]

  -- The verification of the trades: how many were replayed and logged, the mismatches and the report.
  abbrev pub verification_text : ℕ → ℕ → ℕ → Text → Text
  verification_text replayed logged mismatch_count report = concat_text (
      codes "=== TRADE VERIFICATION ===\nTrades replayed: "
      ∷ print_nat replayed
      ∷ codes "\nTrades logged:   "
      ∷ print_nat logged
      ∷ codes "\nResult: "
      ∷ (if mismatch_count == 0
          then codes "ALL " ++ (print_nat replayed ++ codes " trades MATCHED\n")
          else print_nat mismatch_count ++ (codes " MISMATCHES\n" ++ report))
      ∷ [])

  abbrev pub result_text : ℕ → ReplayResult P → Option Text
  result_text max_size r =
      Option.map
        (λ text.
          verification_text (length r.replayed_trades) (length r.logged_trades) r.mismatch_count
            r.mismatch_report
          ++ text)
        (book_text max_size r.book)

  -- The warnings of the replay, each on a line.
  abbrev pub warnings_text : List Text → Text
  warnings_text [] = []
  warnings_text (w ∷ ws) = w ++ (codes "\n" ++ warnings_text ws)

  -- `none` where an exception leaves `main`.
  abbrev pub finish : ℕ → Text → Option (ReplayResult P × List Text) → Option Outcome
  finish max_size path none = some (record {
    output = [];
    errors = codes "Error: Cannot open log file: " ++ (path ++ codes "\n");
    status = 1;
  })
  finish max_size path (some (result, warnings)) =
      Option.map
        (λ (text : Text). record {
          output = text;
          errors = warnings_text warnings;
          status = if result.mismatch_count == 0 then 0 else 1;
        })
        (result_text max_size result)

module _ {P : Type 0} (less : Comparator P) (f : PriceFormat P) (open_file : Text → Option Text)
    (max_size : ℕ) where
  -- `main`, on the arguments behind the program's name, with the timestamp counter at its start.
  -- The `max_size()` of a vector of levels is a parameter.
  unfoldable pub main : ℕ → List Text → Option Outcome
  main counter [] =
      some
        (record { output = []; errors = codes "Usage: replay_tool <log_file_path>\n"; status = 1 })
  main counter (path ∷ rest) =
      finish f max_size path (replay_from_file less f open_file counter path)
