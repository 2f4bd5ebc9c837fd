-- ===== src/ReplayTool/Printed.antt =====
-- What tools/replay_tool.cpp prints of a replay without a mismatch, line by line.
use leviathan_matching_engin.Prelude.{
  ℕ, true, if◌then◌else◌, ◌≤◌, leb, arith, ◌≡◌, refl, ap, sym, ◌∙◌, Option, none, some, List, [],
  ◌∷◌, ◌++◌, map, length, append_assoc, append-nil,
}
use leviathan_matching_engin.Levels.{PriceLevel, depth_levels}
use leviathan_matching_engin.Book.{
  OrderBook, best_bid, best_ask, total_order_count, get_depth, side_map,
}
use leviathan_matching_engin.Order.{Side, buy, sell}
use mathlib.Core.Option
use mathlib.Core.Path.{ap₂}
use leviathan_matching_engin.Text.{Text, codes, print_nat}
use leviathan_matching_engin.Log.{PriceFormat}
use leviathan_matching_engin.ReplayTool.{
  book_text, price_text, pad, level_texts, levels_text, side_text, state_text, verification_text,
}

-- Each line with its newline.
abbrev pub lines_text : List Text → Text
lines_text [] = []
lines_text (l ∷ ls) = l ++ (b'\n' ∷ lines_text ls)

lines_text-append : (ls ms : List Text) → lines_text (ls ++ ms) ≡ lines_text ls ++ lines_text ms
lines_text-append [] ms = refl
lines_text-append (l ∷ ls) ms = simp (lines_text-append ls, append_assoc)

module _ {P : Type 0} (f : PriceFormat P) where
  abbrev pub price_word : Option P → Text
  price_word none = codes "none"
  price_word (some p) = f.print p

  abbrev pub level_row : PriceLevel P → Text
  level_row l =
      codes "    "
      ++ pad 16 (f.print l.price)
      ++ pad 16 (print_nat l.aggregate_quantity)
      ++ pad 12 (print_nat l.order_count)

  -- The table of one side.
  abbrev pub table : List (PriceLevel P) → List Text
  table [] = codes "    (empty)" ∷ []
  table (l ∷ ls) =
      codes "    Price           Agg Quantity    Orders      "
      ∷ codes "    --------------------------------------------"
      ∷ map level_row (l ∷ ls)

  abbrev pub side_lines : Text → List (PriceLevel P) → List Text
  side_lines label levels =
      (codes "  " ++ label ++ codes " (" ++ print_nat (length levels) ++ codes " levels):")
      ∷ table levels

  abbrev head_lines : ℕ → Option P → Option P → ℕ → List Text
  head_lines trades bid ask count =
      codes "=== TRADE VERIFICATION ==="
      ∷ (codes "Trades replayed: " ++ print_nat trades)
      ∷ (codes "Trades logged:   " ++ print_nat trades)
      ∷ (codes "Result: ALL " ++ (print_nat trades ++ codes " trades MATCHED"))
      ∷ []
      ∷ codes "=== FINAL BOOK STATE ==="
      ∷ (codes "Best Bid:     " ++ price_word bid)
      ∷ (codes "Best Ask:     " ++ price_word ask)
      ∷ (codes "Total Orders: " ++ print_nat count)
      ∷ []
      ∷ codes "=== MARKET DEPTH (top 5 levels) ==="
      ∷ []

  abbrev pub printed_lines :
      ℕ → Option P → Option P → ℕ → List (PriceLevel P) → List (PriceLevel P) → List Text
  printed_lines trades bid ask count bids asks =
      head_lines trades bid ask count
      ++ (side_lines (codes "BIDS (highest first)") bids
          ++ [] ∷ (side_lines (codes "ASKS (lowest first)") asks ++ [] ∷ []))

  level_texts-rows : (ls : List (PriceLevel P)) → level_texts f ls ≡ lines_text (map level_row ls)
  level_texts-rows [] = refl
  level_texts-rows (l ∷ ls) = simp (level_texts-rows ls, append_assoc)

  levels_text-table : (ls : List (PriceLevel P)) → levels_text f ls ≡ lines_text (table ls)
  levels_text-table [] = refl
  levels_text-table (l ∷ ls) = simp (level_texts-rows ls, append_assoc)

  side_text-lines :
      (label : Text) (ls : List (PriceLevel P))
      → side_text f label ls ≡ lines_text (side_lines label ls)
  side_text-lines label ls = simp (levels_text-table ls, append_assoc)

  price_text-word : (p : Option P) → price_text f p ≡ price_word p
  price_text-word none = refl
  price_text-word (some p) = refl

  -- The lines for a book.
  abbrev pub book_lines : ℕ → OrderBook P → List Text
  book_lines trades b =
      printed_lines trades (best_bid b) (best_ask b) (total_order_count b) (depth_levels b.bids 5)
        (depth_levels b.asks 5)

  head-lines :
      (trades : ℕ) (b : OrderBook P) (bids asks : Text)
      → verification_text f trades trades 0 [] ++ state_text f b bids asks
        ≡ lines_text (head_lines trades (best_bid b) (best_ask b) (total_order_count b))
          ++ (bids ++ (b'\n' ∷ (asks ++ (b'\n' ∷ []))))
  head-lines trades b bids asks = simp (price_text-word, append_assoc, append-nil)

  sides-lines :
      (first bids asks : List Text)
      → lines_text (first ++ (bids ++ [] ∷ (asks ++ [] ∷ [])))
        ≡ lines_text first ++ (lines_text bids ++ (b'\n' ∷ (lines_text asks ++ (b'\n' ∷ []))))
  sides-lines first bids asks = simp (lines_text-append)

  pub output-lines :
      (trades : ℕ) (b : OrderBook P) (bids asks : List (PriceLevel P))
      → verification_text f trades trades 0 []
          ++ state_text f b
              (side_text f (codes "BIDS (highest first)") bids)
              (side_text f (codes "ASKS (lowest first)") asks)
        ≡ lines_text
            (printed_lines trades (best_bid b) (best_ask b) (total_order_count b) bids asks)
  output-lines trades b bids asks =
      ap₂ (λ s t. verification_text f trades trades 0 [] ++ state_text f b s t)
        (side_text-lines (codes "BIDS (highest first)") bids)
        (side_text-lines (codes "ASKS (lowest first)") asks)
      ∙ head-lines trades b (lines_text (side_lines (codes "BIDS (highest first)") bids))
          (lines_text (side_lines (codes "ASKS (lowest first)") asks))
      ∙ sym (
          sides-lines (head_lines trades (best_bid b) (best_ask b) (total_order_count b))
            (side_lines (codes "BIDS (highest first)") bids)
            (side_lines (codes "ASKS (lowest first)") asks))

  -- `reserve` does not throw for five levels.
  get_depth-five :
      (max_size : ℕ) (b : OrderBook P) (side : Side)
      → 5 ≤ max_size
      → get_depth max_size b side 5 ≡ some (depth_levels (side_map side b) 5)
  unfolding get_depth
  get_depth-five max_size b side room =
      let fits : leb 5 max_size ≡ true = ground arith in
      ap (λ x. if x then some (depth_levels (side_map side b) 5) else none) fits

  pub book_text-five :
      (max_size : ℕ) (b : OrderBook P)
      → 5 ≤ max_size
      → book_text f max_size b
        ≡ some (
            state_text f b
              (side_text f (codes "BIDS (highest first)") (depth_levels b.bids 5))
              (side_text f (codes "ASKS (lowest first)") (depth_levels b.asks 5)))
  book_text-five max_size b room = λ i.
      elim (Option.map (side_text f (codes "BIDS (highest first)"))
        (get_depth-five max_size b buy room i)) [
          | none ↦ none
          | some bids ↦ Option.map (state_text f b bids) (
              Option.map (side_text f (codes "ASKS (lowest first)"))
                (get_depth-five max_size b sell room i))
        ]
