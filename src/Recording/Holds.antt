-- ===== src/Recording/Holds.antt =====
-- What a log of src/recording_order_book.cpp holds, and each write to it.
use leviathan_matching_engin.Prelude.{
  suc, ◌%◌, ◌≡◌, refl, ap, sym, ◌∙◌, List, [], ◌∷◌, ◌++◌, arith, map, length, length-append, subst,
  append_assoc, append-nil,
}
use mathlib.Core.List.{map-append}
use leviathan_matching_engin.Order.{Trade, uint64_limit}
use leviathan_matching_engin.Book.{OrderBook, empty_book}
use leviathan_matching_engin.Recording.{
  LogEvent, LogLine, RecordingOrderBook, new_recording, log_event, trade_entry, log_trades,
}
use leviathan_matching_engin.Recording.Calls.{
  request_of, trade_of, requests_in, trades_in, requests_in-append, trades_in-append, numbers,
}

module _ {P T : Type 0} where
  pub record IsNumberedLog (r : RecordingOrderBook P T) : Type 0 where
    pub in_turn : map (λ (l : LogLine T). l.seq) r.log ≡ numbers (length r.log)
    pub next : r.next_seq ≡ length r.log % uint64_limit

  pub log_event-IsNumberedLog :
      (e : LogEvent T) (r : RecordingOrderBook P T)
      → IsNumberedLog r
      → IsNumberedLog (log_event e r)
  unfolding log_event
  log_event-IsNumberedLog e r n =
      let l : LogLine T = record { seq = r.next_seq; event = e } in
      let longer : length (r.log ++ l ∷ []) ≡ suc (length r.log) =
        omega (arith, length-append r.log (l ∷ [])) in
      record {
        in_turn = rw longer (
            map-append (λ (x : LogLine T). x.seq) r.log (l ∷ [])
            ∙ ap (λ ns. ns ++ r.next_seq ∷ []) n.in_turn
            ∙ ap (λ k. numbers (length r.log) ++ k ∷ []) n.next);
        next = rw (longer, n.next) (omega arith);
      }

  -- What is kept of a wrapper while it writes trade lines.
  pub log_trades-IsNumberedLog :
      (print : P → T) (trades : List (Trade P)) (r : RecordingOrderBook P T)
      → IsNumberedLog r
      → IsNumberedLog (log_trades print trades r)
  unfolding log_trades
  log_trades-IsNumberedLog print [] r n = n
  log_trades-IsNumberedLog print (t ∷ trades) r n =
      log_trades-IsNumberedLog print trades (log_event (trade_entry print t) r)
        (log_event-IsNumberedLog (trade_entry print t) r n)

  -- A wrapper's book, and the requests and trades in its log.
  pub record Holds (b : OrderBook P) (rs ts : List (LogEvent T)) (r : RecordingOrderBook P T)
      : Type 0 where
    pub book_kept : r.book ≡ b
    pub requested : requests_in r.log ≡ rs
    pub traded_lines : trades_in r.log ≡ ts
    pub numbered : IsNumberedLog r

  pub new_recording-Holds : Holds empty_book [] [] new_recording
  new_recording-Holds = record {
    book_kept = refl;
    requested = refl;
    traded_lines = refl;
    numbered = record { in_turn = refl; next = omega arith };
  }

  pub with_own_book-Holds :
      {b : OrderBook P} {rs ts : List (LogEvent T)} {r : RecordingOrderBook P T}
      → Holds b rs ts r
      → Holds r.book rs ts r
  with_own_book-Holds h = record {
    book_kept = refl;
    requested = h.requested;
    traded_lines = h.traded_lines;
    numbered = h.numbered;
  }

  pub log_request-Holds :
      (e : LogEvent T) {b : OrderBook P} {rs ts : List (LogEvent T)} {r : RecordingOrderBook P T}
      → request_of e ≡ e ∷ []
      → trade_of e ≡ []
      → Holds b rs ts r
      → Holds b (rs ++ e ∷ []) ts (log_event e r)
  unfolding log_event
  log_request-Holds e {ts} {r} is not_trade h =
      let l : LogLine T = record { seq = r.next_seq; event = e } in
      record {
        book_kept = h.book_kept;
        requested = requests_in-append r.log (l ∷ []) ∙ rw (is, h.requested) refl;
        traded_lines =
            trades_in-append r.log (l ∷ []) ∙ rw (not_trade, h.traded_lines) (append-nil ts);
        numbered = log_event-IsNumberedLog e r h.numbered;
      }

  pub log_trades-Holds :
      (print : P → T) (trades : List (Trade P)) {b : OrderBook P} {rs ts : List (LogEvent T)}
      {r : RecordingOrderBook P T}
      → Holds b rs ts r
      → Holds b rs (ts ++ map (trade_entry print) trades) (log_trades print trades r)
  unfolding log_trades log_event
  log_trades-Holds print [] {b} {rs} {ts} {r} h =
      subst (λ us. Holds b rs us r) (sym (append-nil ts)) h
  log_trades-Holds print (t ∷ trades) {b} {rs} {ts} {r} h =
      let e = trade_entry print t in
      let l : LogLine T = record { seq = r.next_seq; event = e } in
      subst (λ us. Holds b rs us (log_trades print (t ∷ trades) r))
        (append_assoc ts (e ∷ []) (map (trade_entry print) trades))
        (log_trades-Holds print trades {r = log_event e r} (record {
          book_kept = h.book_kept;
          requested =
              requests_in-append r.log (l ∷ []) ∙ append-nil (requests_in r.log) ∙ h.requested;
          traded_lines = trades_in-append r.log (l ∷ []) ∙ ap (λ us. us ++ e ∷ []) h.traded_lines;
          numbered = log_event-IsNumberedLog e r h.numbered;
        }))
