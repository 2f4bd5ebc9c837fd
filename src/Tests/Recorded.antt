-- ===== src/Tests/Recorded.antt =====
-- The log of src/recording_order_book.cpp for a concrete sequence of calls.
use leviathan_matching_engin.Prelude.{ℕ, ◌≡◌, refl, List, [], ◌∷◌, map, length}
use leviathan_matching_engin.Price.{ticks}
use leviathan_matching_engin.Order.{buy, sell, limit}
use leviathan_matching_engin.Levels.{push_back}
use leviathan_matching_engin.Index
use leviathan_matching_engin.Book.{empty_book}
use leviathan_matching_engin.Matching.{fill_front, match_round, match_loop, run_matching}
use leviathan_matching_engin.Operations.{add_order, execute, submit_order}
use leviathan_matching_engin.Recording.{
  LogLine, new_recording, add_event, submit_event, trade_event, trade_entry, log_event, log_trades,
  recording_add_order, recording_submit_order,
}
use leviathan_matching_engin.Recording.Calls.{
  Call, adds, submits, modifies, requests_in, trades_in, numbers, request, calls, record_calls,
}
use leviathan_matching_engin.Recording.Completeness.{record_calls_complete}
use leviathan_matching_engin.Tests.Sample.{order}

abbrev recorded : List (Call ℕ)
recorded =
    adds (order 1 sell 101 5 0 limit) ∷ submits (order 2 buy 102 8 1 limit) ∷ modifies 2 102 4 ∷ []

log_run :
    (record_calls ticks
      (λ p. p)
      2
      new_recording
      (adds (order 1 sell 101 5 0 limit) ∷ submits (order 2 buy 102 8 1 limit) ∷ [])).log
    ≡ record { seq = 0; event = add_event 1 1 101 5 0 }
      ∷ record { seq = 1; event = submit_event 2 0 102 8 0 }
      ∷ record { seq = 2; event = trade_event 2 1 101 5 }
      ∷ []
unfolding recording_add_order recording_submit_order log_event log_trades add_order submit_order
    execute run_matching match_loop match_round fill_front push_back Index.insert Index.erase
log_run = refl

record_calls_complete_example :
    let r = record_calls ticks (λ p. p) 2 new_recording recorded in
    let (b, trades) = calls ticks 2 empty_book recorded in
    (r.book ≡ b)
    × (requests_in r.log ≡ map (request (λ p. p)) recorded)
    × (trades_in r.log ≡ map (trade_entry (λ p. p)) trades)
    × (map (λ (l : LogLine ℕ). l.seq) r.log ≡ numbers (length r.log))
record_calls_complete_example = record_calls_complete ticks (λ p. p) 2 recorded
