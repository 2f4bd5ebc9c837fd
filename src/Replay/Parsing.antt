-- ===== src/Replay/Parsing.antt =====
-- `parseLine` of src/replay.cpp on a line that src/recording_order_book.cpp wrote.
use leviathan_matching_engin.Prelude.{ℕ, ◌≡◌, ◌<◌, ap}
use mathlib.Core.Option
use leviathan_matching_engin.Price.{Comparator}
use leviathan_matching_engin.Order.{uint64_limit}
use leviathan_matching_engin.Recording.{
  LogEvent, add_event, cancel_event, modify_event, submit_event, trade_event,
}
use leviathan_matching_engin.Text.{codes, take_until}
use leviathan_matching_engin.Log.{PriceFormat, IsFaithful, event_text}
use leviathan_matching_engin.Log.Fields.{
  order_fields-order_text, cancel_fields_lem, modify_fields_lem, trade_fields_lem,
}
use leviathan_matching_engin.Replay.{Replaying, perform, perform_read, parse_tagged, parse_line}

-- The numbers of an event are those of a `uint64_t` or of an enumeration.
abbrev pub FitsWords : {P : Type 0} → LogEvent P → Type 0
FitsWords (add_event i s p n t) = (i < uint64_limit) × (s < 256) × (n < uint64_limit) × (t < 256)
FitsWords (cancel_event i) = i < uint64_limit
FitsWords (modify_event i p n) = (i < uint64_limit) × (n < uint64_limit)
FitsWords (submit_event i s p n t) = (i < uint64_limit) × (s < 256) × (n < uint64_limit) × (t < 256)
FitsWords (trade_event i j p n) = (i < uint64_limit) × (j < uint64_limit) × (n < uint64_limit)

module _ {P : Type 0} (less : Comparator P) (f : PriceFormat P) (faithful : IsFaithful f) where
  -- `parseLine` on a line that `RecordingOrderBook` wrote, with numbers in range and a price that
  -- is read back from its print, does that line's operation with the values that were written.
  pub parse_line-event_text :
      (seq : ℕ) (e : LogEvent P) (st : Replaying P)
      → seq < uint64_limit
      → FitsWords e
      → parse_line less f (event_text f seq e) st ≡ perform less e st
  unfolding parse_line parse_tagged perform_read take_until event_text
  parse_line-event_text seq (add_event i s p n t) st hs (hi, hside, hn, ht) =
      ap
        (λ x.
          perform_read less (codes "ADD") (event_text f seq (add_event i s p n t)) st
            (Option.map (λ y. add_event y.0.1 y.0.2 y.0.3 y.0.4 y.0.5) x))
        (order_fields-order_text f faithful seq i s p n t hs hi hside hn ht)
  parse_line-event_text seq (cancel_event i) st hs hi =
      ap
        (λ x.
          perform_read less (codes "CANCEL") (event_text f seq (cancel_event i)) st
            (Option.map (λ y. cancel_event y.0.1) x))
        (cancel_fields_lem f faithful seq i hs hi)
  parse_line-event_text seq (modify_event i p n) st hs (hi, hn) =
      ap
        (λ x.
          perform_read less (codes "MODIFY") (event_text f seq (modify_event i p n)) st
            (Option.map (λ y. modify_event y.0.1 y.0.2 y.0.3) x))
        (modify_fields_lem f faithful seq i p n hs hi hn)
  parse_line-event_text seq (submit_event i s p n t) st hs (hi, hside, hn, ht) =
      ap
        (λ x.
          perform_read less (codes "SUBMIT") (event_text f seq (submit_event i s p n t)) st
            (Option.map (λ y. submit_event y.0.1 y.0.2 y.0.3 y.0.4 y.0.5) x))
        (order_fields-order_text f faithful seq i s p n t hs hi hside hn ht)
  parse_line-event_text seq (trade_event i j p n) st hs (hi, hj, hn) =
      ap
        (λ x.
          perform_read less (codes "TRADE") (event_text f seq (trade_event i j p n)) st
            (Option.map (λ y. trade_event y.0.1 y.0.2 y.0.3 y.0.4) x))
        (trade_fields_lem f faithful seq i j p n hs hi hj hn)
