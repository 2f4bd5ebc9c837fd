-- ===== src/Tests/Logged.antt =====
-- The text of a log of src/recording_order_book.cpp, and its replay by src/replay.cpp, with prices in
-- whole ticks that print as their digits.
use leviathan_matching_engin.Prelude.{
  ℕ, ◌≡◌, refl, not, Option, none, some, List, [], ◌∷◌, ◌++◌, ◌==◌, length, arith,
}
use leviathan_matching_engin.Price.{ticks}
use leviathan_matching_engin.Order.{buy, sell, limit}
use leviathan_matching_engin.Levels.{
  push_back, alter_level, erase_from_side, find_level, find_order_in_deque, preview_levels,
  can_fully_fill_from_map,
}
use leviathan_matching_engin.Index
use leviathan_matching_engin.Book.{empty_book}
use leviathan_matching_engin.Matching.{fill_front, match_round, match_loop, run_matching}
use leviathan_matching_engin.Operations.{
  add_order, cancel_order, can_fully_fill, execute, submit_order, modify_order,
}
use leviathan_matching_engin.Recording.{
  add_event, cancel_event, submit_event, new_recording, log_event, log_trades, recording_add_order,
  recording_cancel_order, recording_submit_order, recording_modify_order,
}
use leviathan_matching_engin.Recording.Calls.{
  Call, adds, submits, cancels, modifies, calls, record_calls,
}
use leviathan_matching_engin.Text.{
  Text, codes, print_nat, print_digits, skip_space, read_digits, read_signed, extract_uint64,
  extract_int, extract_char, take_until, split_lines,
}
use leviathan_matching_engin.Text.Decimal.{IsDelimited, read_signed-print_nat}
use leviathan_matching_engin.Log.{
  PriceFormat, IsFaithful, event_text, log_text, order_fields, cancel_fields,
}
use leviathan_matching_engin.Untimed.{untimed_order, untimed_book, untimed_trades}
use leviathan_matching_engin.Replay.{
  new_replaying, perform, parse_line, parse_tagged, perform_read, replay_from_stream,
  compare_trades,
}
use leviathan_matching_engin.Replay.Lines.{Unbroken-print_nat}
use leviathan_matching_engin.Replay.Reading.{
  events_of, warnings_of, perform_all, replay_from_stream-reads,
}
use leviathan_matching_engin.Replay.Parsing.{parse_line-event_text}
use leviathan_matching_engin.Replay.RoundTrip.{replay_recorded}
use leviathan_matching_engin.ReplayTool.{main}
use leviathan_matching_engin.ReplayTool.Printed.{lines_text, book_lines}
use leviathan_matching_engin.ReplayTool.Recorded.{main-recorded}
use leviathan_matching_engin.Untimed.Operations.{untimed_submission, submit_order-untimed}
use leviathan_matching_engin.Untimed.Modify.{untimed_modification, modify_order-same}
use leviathan_matching_engin.Tests.Sample.{order, sample, taker}

unfoldable pub extract_tick : Text → Option (ℕ × Text)
extract_tick s = elim (read_signed (skip_space s)) [
  | none ↦ none
  | some (negative, n, rest) ↦ some (n, rest)
]

abbrev pub tick_format : PriceFormat ℕ
tick_format = record {
  print = print_nat;
  show = print_nat;
  extract = extract_tick;
  far = λ a b. not (a == b);
}

extract_tick-print_nat :
    (p : ℕ) (rest : Text) → IsDelimited rest → extract_tick (print_nat p ++ rest) ≡ some (p, rest)
unfolding extract_tick
extract_tick-print_nat p rest h = rw (read_signed-print_nat p rest h, extract_tick) refl

pub tick_format-IsFaithful : IsFaithful tick_format
tick_format-IsFaithful = record {
  extract_print = extract_tick-print_nat;
  one_line = Unbroken-print_nat;
  far_self = λ p. ground arith;
}

abbrev logged_calls : List (Call ℕ)
logged_calls =
    adds (order 1 sell 101 5 0 limit)
    ∷ submits (order 2 buy 102 8 1 limit)
    ∷ modifies 2 102 2
    ∷ cancels 7
    ∷ []

log_text_run :
    log_text tick_format (record_calls ticks (λ p. p) 2 new_recording logged_calls).log
    ≡ codes
        "ADD,0,1,1,101,5,0\nSUBMIT,1,2,0,102,8,0\nTRADE,2,2,1,101,5\nMODIFY,3,2,102,2\nCANCEL,4,7\n"
unfolding log_text event_text print_nat print_digits recording_add_order recording_cancel_order
    recording_submit_order recording_modify_order log_event log_trades add_order cancel_order
    submit_order modify_order can_fully_fill execute run_matching match_loop match_round fill_front
    push_back alter_level erase_from_side find_level find_order_in_deque preview_levels
    can_fully_fill_from_map Index.insert Index.erase Index.lookup
log_text_run = refl

-- A line with a field that is no number, and one with a tag that nobody knows.
malformed_run :
    parse_line ticks tick_format (codes "ADD,0,1,x,101,5,0") (new_replaying 3)
    ≡ record (new_replaying 3) {
      warnings = codes "[WARN] Malformed ADD line, skipping: ADD,0,1,x,101,5,0" ∷ [];
    }
unfolding parse_line parse_tagged perform_read take_until order_fields extract_uint64 skip_space
    read_digits extract_char extract_int
malformed_run = refl

parse_line-event_text_example :
    parse_line ticks tick_format (codes "SUBMIT,1,2,0,102,8,3") (new_replaying 9)
    ≡ perform ticks (submit_event 2 0 102 8 3) (new_replaying 9)
unfolding event_text print_nat print_digits
parse_line-event_text_example =
    parse_line-event_text ticks tick_format tick_format-IsFaithful 1 (submit_event 2 0 102 8 3)
      (new_replaying 9) (omega arith) (omega arith)

replay_recorded_example :
    let r = record_calls ticks (λ (p : ℕ). p) 2 new_recording logged_calls in
    let trades = (calls ticks 2 empty_book logged_calls).1 in
    let result = replay_from_stream ticks tick_format 40 (log_text tick_format r.log) in
    (untimed_book result.0.book ≡ untimed_book r.book)
    × (untimed_trades result.0.replayed_trades ≡ untimed_trades trades)
    × (result.0.logged_trades ≡ untimed_trades trades)
    × (result.0.mismatch_count ≡ 0)
    × (result.1 ≡ [])
replay_recorded_example =
    replay_recorded ticks tick_format tick_format-IsFaithful 2 40 logged_calls (omega arith)

-- A malformed line between two good ones.
abbrev damaged_log : Text
damaged_log = codes "ADD,0,1,1,101,5,0\nADD,1,x\r\nCANCEL,2,1\n"

replay_from_stream-reads_example :
    let lines = split_lines damaged_log in
    replay_from_stream ticks tick_format 3 damaged_log ≡ (
      compare_trades ticks tick_format
          (perform_all ticks (events_of tick_format lines) (new_replaying 3)),
      warnings_of tick_format lines,
    )
replay_from_stream-reads_example = replay_from_stream-reads ticks tick_format 3 damaged_log

damaged_log_run :
    (events_of tick_format (split_lines damaged_log) ≡ add_event 1 1 101 5 0 ∷ cancel_event 1 ∷ [])
    × (warnings_of tick_format (split_lines damaged_log)
        ≡ codes "[WARN] Malformed ADD line, skipping: ADD,1,x" ∷ [])
unfolding take_until split_lines order_fields cancel_fields extract_uint64 skip_space read_digits
    extract_char extract_int extract_tick
damaged_log_run = (refl, refl)

main-recorded_example :
    let r = record_calls ticks (λ (p : ℕ). p) 2 new_recording logged_calls in
    let n = length (calls ticks 2 empty_book logged_calls).1 in
    main ticks tick_format (λ path. some (log_text tick_format r.log)) 1000 0 (codes "log.csv" ∷ [])
    ≡ some
        (record { output = lines_text (book_lines tick_format n r.book); errors = []; status = 0 })
main-recorded_example =
    main-recorded ticks tick_format tick_format-IsFaithful
      (λ path.
        some (
          log_text tick_format
            (record_calls ticks (λ (p : ℕ). p) 2 new_recording logged_calls).log))
      1000 2 0 logged_calls (codes "log.csv") [] (omega arith) (omega arith) refl

submit_order-untimed_example :
    submit_order ticks (untimed_book sample) (untimed_order (taker limit))
    ≡ untimed_submission ticks (submit_order ticks sample (taker limit))
submit_order-untimed_example = submit_order-untimed ticks sample (taker limit)

modify_order-same_example :
    untimed_modification ticks (modify_order ticks 7 sample 4 102 20)
    ≡ untimed_modification ticks (modify_order ticks 50 sample 4 102 20)
modify_order-same_example = modify_order-same ticks 7 50 sample sample 4 102 20 refl
