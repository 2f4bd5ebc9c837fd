-- ===== src/Recording/Completeness.antt =====
-- The log of src/recording_order_book.cpp after a sequence of calls.
use leviathan_matching_engin.Prelude.{
  ℕ, ◌≡◌, refl, sym, Option, none, some, List, [], ◌∷◌, ◌++◌, map, length, subst, append_assoc,
  append-nil,
}
use mathlib.Core.List.{map-append}
use leviathan_matching_engin.Price.{Comparator}
use leviathan_matching_engin.Order.{Trade}
use leviathan_matching_engin.Book.{OrderBook, empty_book}
use leviathan_matching_engin.Operations.{add_order, cancel_order, submit_order, modify_order}
use leviathan_matching_engin.Recording.{
  LogEvent, LogLine, RecordingOrderBook, new_recording, log_event, trade_entry, log_result,
  recording_add_order, recording_cancel_order, recording_submit_order, recording_modify_order,
}
use leviathan_matching_engin.Recording.Calls.{
  Call, adds, submits, cancels, modifies, trades_of, requests_in, trades_in, numbers, request, call,
  record_call, calls, record_calls,
}
use leviathan_matching_engin.Recording.Holds.{
  Holds, new_recording-Holds, with_own_book-Holds, log_request-Holds, log_trades-Holds,
}

module _ {P T : Type 0} (less : Comparator P) (print : P → T) where
  log_result-Holds :
      (result : Option (List (Trade P))) {b : OrderBook P} {rs ts : List (LogEvent T)}
      {r : RecordingOrderBook P T}
      → Holds b rs ts r
      → Holds b rs (ts ++ map (trade_entry print) (trades_of result)) (log_result print result r)
  log_result-Holds none {b} {rs} {ts} {r} h = subst (λ us. Holds b rs us r) (sym (append-nil ts)) h
  log_result-Holds (some trades) h = log_trades-Holds print trades h

  with_book-Holds :
      (b' : OrderBook P) {b : OrderBook P} {rs ts : List (LogEvent T)} {r : RecordingOrderBook P T}
      → Holds b rs ts r
      → Holds b' rs ts (record r { book = b' })
  with_book-Holds b' h = record {
    book_kept = refl;
    requested = h.requested;
    traded_lines = h.traded_lines;
    numbered = record { in_turn = h.numbered.in_turn; next = h.numbered.next };
  }

  record_call-Holds :
      (counter : ℕ) (r : RecordingOrderBook P T) (c : Call P) {rs ts : List (LogEvent T)}
      → Holds r.book rs ts r
      → (Holds
          (call less counter r.book c).0
          (rs ++ request print c ∷ [])
          (ts ++ map (trade_entry print) (call less counter r.book c).1)
          (record_call less print counter r c).0)
        × ((record_call less print counter r c).1 ≡ (call less counter r.book c).2)
  unfolding recording_add_order recording_cancel_order recording_submit_order recording_modify_order
      log_event
  record_call-Holds counter r (adds o) {rs} {ts} h = (
    subst
        (λ us.
          Holds (add_order less r.book o) (rs ++ request print (adds o) ∷ []) us
            (recording_add_order less print r o))
        (sym (append-nil ts))
        (with_book-Holds (add_order less r.book o)
          (log_request-Holds (request print (adds o)) refl refl h)),
    refl,
  )
  record_call-Holds counter r (cancels i) {rs} {ts} h = (
    subst
        (λ us.
          Holds (cancel_order less r.book i).0 (rs ++ request print (cancels i) ∷ []) us
            (recording_cancel_order less print r i).0)
        (sym (append-nil ts))
        (with_book-Holds (cancel_order less r.book i).0
          (log_request-Holds (request print (cancels i)) refl refl h)),
    refl,
  )
  record_call-Holds counter r (submits o) h = (
    log_trades-Holds print (submit_order less r.book o).1 (
        with_book-Holds (submit_order less r.book o).0
          (log_request-Holds (request print (submits o)) refl refl h)),
    refl,
  )
  record_call-Holds counter r (modifies i p n) h = (
    log_result-Holds (modify_order less counter r.book i p n).1 (
        with_book-Holds (modify_order less counter r.book i p n).0
          (log_request-Holds (request print (modifies i p n)) refl refl h)),
    refl,
  )

  at_book-Holds :
      (counter : ℕ) (b : OrderBook P) (r : RecordingOrderBook P T) (c : Call P)
      {rs ts : List (LogEvent T)}
      → Holds b rs ts r
      → (Holds
          (call less counter b c).0
          (rs ++ request print c ∷ [])
          (ts ++ map (trade_entry print) (call less counter b c).1)
          (record_call less print counter r c).0)
        × ((record_call less print counter r c).1 ≡ (call less counter b c).2)
  at_book-Holds counter b r c {rs} {ts} h =
      subst
        (λ x.
          (Holds (call less counter x c).0 (rs ++ request print c ∷ [])
            (ts ++ map (trade_entry print) (call less counter x c).1)
            (record_call less print counter r c).0)
          × ((record_call less print counter r c).1 ≡ (call less counter x c).2))
        h.book_kept (record_call-Holds counter r c (with_own_book-Holds h))

  record_calls-Holds :
      (counter : ℕ) (b : OrderBook P) (r : RecordingOrderBook P T) (cs : List (Call P))
      {rs ts : List (LogEvent T)}
      → Holds b rs ts r
      → Holds
          (calls less counter b cs).0
          (rs ++ map (request print) cs)
          (ts ++ map (trade_entry print) (calls less counter b cs).1)
          (record_calls less print counter r cs)
  record_calls-Holds counter b r [] {rs} {ts} h = rw (append-nil rs, append-nil ts) h
  record_calls-Holds counter b r (c ∷ cs) {rs} {ts} h =
      let (h', same) = at_book-Holds counter b r c h in
      let trades = (call less counter b c).1 in
      let after = calls less (call less counter b c).2 (call less counter b c).0 cs in
      let later =
        record_calls-Holds (call less counter b c).2 (call less counter b c).0
          (record_call less print counter r c).0 cs h' in
      rw
        (
          same,
          map-append (trade_entry print) trades after.1,
          sym (append_assoc ts (map (trade_entry print) trades) (map (trade_entry print) after.1)),
          sym (append_assoc rs (request print c ∷ []) (map (request print) cs)),
        )
        later

  -- After any calls of a new `RecordingOrderBook` its book is that of the same calls of a plain
  -- `OrderBook`, the requests in its log are the calls, the trades in it are those that the plain
  -- calls return, each in order, and its lines are numbered from 0, modulo 2^64.
  pub record_calls_complete :
      (counter : ℕ) (cs : List (Call P))
      → let r = record_calls less print counter new_recording cs in
        let (b, trades) = calls less counter empty_book cs in
        (r.book ≡ b)
        × (requests_in r.log ≡ map (request print) cs)
        × (trades_in r.log ≡ map (trade_entry print) trades)
        × (map (λ (l : LogLine T). l.seq) r.log ≡ numbers (length r.log))
  record_calls_complete counter cs =
      let h = record_calls-Holds counter empty_book new_recording cs new_recording-Holds in
      (h.book_kept, h.requested, h.traded_lines, h.numbered.in_turn)
