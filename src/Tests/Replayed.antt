-- ===== src/Tests/Replayed.antt =====
-- `compareTrades` of src/replay.cpp on concrete trades, with prices in whole ticks.
use leviathan_matching_engin.Prelude.{ℕ, ◌≡◌, refl, not, Bool, [], ◌∷◌, ◌==◌, length, ◌↔◌}
use leviathan_matching_engin.Order.{Trade}
use leviathan_matching_engin.Replay.{report, mismatches, mismatch, extra}
use leviathan_matching_engin.Replay.Comparison.{Agree, mismatches_lem}

abbrev trade : ℕ → ℕ → Trade ℕ
trade quantity timestamp = record {
  buy_order_id = 9;
  sell_order_id = 1;
  price = 101;
  quantity = quantity;
  timestamp = timestamp;
}

abbrev far : ℕ → ℕ → Bool
far a b = not (a == b)

report_run :
    report far 0 (trade 5 7 ∷ trade 3 7 ∷ trade 2 7 ∷ []) (trade 5 4 ∷ trade 4 4 ∷ [])
    ≡ mismatch 1 (trade 4 4) (trade 3 7) ∷ extra 2 (trade 2 7) ∷ []
unfolding report
report_run = refl

mismatches_lem_example :
    ((mismatches far (trade 5 7 ∷ []) (trade 5 4 ∷ []) ≡ 0)
      ↔ Agree far (trade 5 7 ∷ []) (trade 5 4 ∷ []))
    × (length (report far 0 (trade 5 7 ∷ []) (trade 5 4 ∷ []))
        ≡ mismatches far (trade 5 7 ∷ []) (trade 5 4 ∷ []))
mismatches_lem_example = mismatches_lem far (trade 5 7 ∷ []) (trade 5 4 ∷ [])
