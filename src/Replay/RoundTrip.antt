-- ===== src/Replay/RoundTrip.antt =====
-- A log that src/recording_order_book.cpp wrote, replayed by src/replay.cpp.
use leviathan_matching_engin.Prelude.{
  ℕ, zero, suc, ◌%◌, ◌<◌, ◌≡◌, refl, ap, sym, ◌∙◌, Bool, false, List, [], ◌∷◌, ◌++◌, arith, All,
  All-append, map, length,
}
use leviathan_matching_engin.Price.{Comparator}
use leviathan_matching_engin.Order.{
  Side, buy, sell, OrderType, limit, market, ioc, fok, Trade, uint64_limit,
}
use leviathan_matching_engin.Book.{empty_book}
use leviathan_matching_engin.Recording.{
  LogEvent, add_event, cancel_event, modify_event, submit_event, trade_event, LogLine,
  new_recording, trade_entry, side_code, type_code,
}
use leviathan_matching_engin.Recording.Calls.{
  Call, adds, submits, cancels, modifies, request_of, trade_of, requests_in, trades_in, numbers,
  request, calls, record_calls,
}
use leviathan_matching_engin.Recording.Completeness.{record_calls_complete}
use leviathan_matching_engin.Bounds.{FitsTrade}
use leviathan_matching_engin.Bounds.Calls.{FitsCall, calls-Fits}
use leviathan_matching_engin.Untimed.{
  untimed_trade, untimed_book, untimed_trades, untimed_trades_idem,
}
use leviathan_matching_engin.Text.{split_lines}
use leviathan_matching_engin.Log.{PriceFormat, IsFaithful, log_text}
use leviathan_matching_engin.Replay.{
  Replaying, new_replaying, mismatches, replay_lines, replay_from_stream,
}
use leviathan_matching_engin.Replay.Parsing.{FitsWords}
use leviathan_matching_engin.Replay.Lines.{split_lines-log_text}
use leviathan_matching_engin.Replay.Events.{
  FitsLine, logged, logged-trades_in, perform_requests, perform_events_split,
  perform_requests-requests_in, replay_lines-perform_events,
}
use leviathan_matching_engin.Replay.Session.{replay_calls}

side_code_small : (s : Side) → side_code s < 256
side_code_small buy = omega arith
side_code_small sell = omega arith

type_code_small : (t : OrderType) → type_code t < 256
type_code_small limit = omega arith
type_code_small market = omega arith
type_code_small ioc = omega arith
type_code_small fok = omega arith

module _ {P : Type 0} where
  FitsWords-part :
      (e : LogEvent P) (xs ys : List (LogEvent P))
      → All FitsWords (request_of e ++ xs)
      → All FitsWords (trade_of e ++ ys)
      → FitsWords e × All FitsWords xs × All FitsWords ys
  FitsWords-part (trade_event i j p n) xs ys h k = (k.0, h, k.1)
  FitsWords-part (add_event i s p n t) xs ys h k = (h.0, h.1, k)
  FitsWords-part (cancel_event i) xs ys h k = (h.0, h.1, k)
  FitsWords-part (modify_event i p n) xs ys h k = (h.0, h.1, k)
  FitsWords-part (submit_event i s p n t) xs ys h k = (h.0, h.1, k)

  All-FitsLine :
      (ls : List (LogLine P))
      → All (λ (n : ℕ). n < uint64_limit) (map (λ (l : LogLine P). l.seq) ls)
      → All FitsWords (requests_in ls)
      → All FitsWords (trades_in ls)
      → All FitsLine ls
  All-FitsLine [] hs hr ht = tt
  All-FitsLine (l ∷ ls) hs hr ht =
      let (e, rs, ts) = FitsWords-part l.event (requests_in ls) (trades_in ls) hr ht in
      ((hs.0, e), All-FitsLine ls hs.1 rs ts)

  request-FitsWords : (c : Call P) → FitsCall c → FitsWords (request (λ (p : P). p) c)
  request-FitsWords (adds o) h = (h.0, side_code_small o.side, h.1, type_code_small o.type)
  request-FitsWords (submits o) h = (h.0, side_code_small o.side, h.1, type_code_small o.type)
  request-FitsWords (cancels i) h = h
  request-FitsWords (modifies i p n) h = h

  All-request :
      (cs : List (Call P)) → All FitsCall cs → All FitsWords (map (request (λ (p : P). p)) cs)
  All-request [] h = tt
  All-request (c ∷ cs) h = (request-FitsWords c h.0, All-request cs h.1)

  All-trade_entry :
      (ts : List (Trade P)) → All FitsTrade ts → All FitsWords (map (trade_entry (λ (p : P). p)) ts)
  All-trade_entry [] h = tt
  All-trade_entry (t ∷ ts) h = (h.0, All-trade_entry ts h.1)

  logged-trade_entry :
      (ts : List (Trade P)) → logged (map (trade_entry (λ (p : P). p)) ts) ≡ untimed_trades ts
  logged-trade_entry [] = refl
  logged-trade_entry (t ∷ ts) = ap (◌∷◌ (untimed_trade t)) (logged-trade_entry ts)

numbers_small : (n : ℕ) → All (λ (k : ℕ). k < uint64_limit) (numbers n)
numbers_small zero = tt
numbers_small (suc n) =
    All-append (λ (k : ℕ). k < uint64_limit) (numbers n) (n % uint64_limit ∷ []) (numbers_small n)
      (omega arith, tt)

module _ {P : Type 0} (far : P → P → Bool) (far_self : (p : P) → far p p ≡ false) where
  mismatches-untimed_trades :
      (rs ls : List (Trade P))
      → mismatches far (untimed_trades rs) (untimed_trades ls) ≡ mismatches far rs ls
  unfolding mismatches
  mismatches-untimed_trades [] [] = refl
  mismatches-untimed_trades [] (l ∷ ls) = ap suc (mismatches-untimed_trades [] ls)
  mismatches-untimed_trades (r ∷ rs) [] = ap suc (mismatches-untimed_trades rs [])
  mismatches-untimed_trades (r ∷ rs) (l ∷ ls) = ground (arith, mismatches-untimed_trades rs ls)

  mismatches_self : (ts : List (Trade P)) → mismatches far ts ts ≡ 0
  unfolding mismatches
  mismatches_self [] = refl
  mismatches_self (t ∷ ts) = ground (arith, mismatches_self ts, far_self t.price)

  pub mismatches_zero :
      (rs ls : List (Trade P)) → untimed_trades rs ≡ untimed_trades ls → mismatches far rs ls ≡ 0
  mismatches_zero rs ls h =
      sym (mismatches-untimed_trades rs ls)
      ∙ ap (mismatches far (untimed_trades rs)) (sym h)
      ∙ mismatches_self (untimed_trades rs)

module _ {P : Type 0} (less : Comparator P) (f : PriceFormat P) (faithful : IsFaithful f) where
  log-FitsLine :
      (counter : ℕ) (cs : List (Call P))
      → All FitsCall cs
      → All FitsLine (record_calls less (λ (p : P). p) counter new_recording cs).log
  log-FitsLine counter cs fits =
      let log = (record_calls less (λ (p : P). p) counter new_recording cs).log in
      let (kept, requested, traded, seqs) = record_calls_complete less (λ (p : P). p) counter cs in
      All-FitsLine log (rw seqs (numbers_small (length log))) (rw requested (All-request cs fits)) (
        rw traded (
          All-trade_entry (calls less counter empty_book cs).1
            (calls-Fits less counter empty_book cs (tt, tt) fits).1))

  -- The variables of `parseLine` at the end of the log.
  replayed :
      (counter counter' : ℕ) (cs : List (Call P))
      → All FitsCall cs
      → let r = record_calls less (λ (p : P). p) counter new_recording cs in
        replay_lines less f (split_lines (log_text f r.log)) (new_replaying counter')
        ≡ record (perform_requests less
            (map (request (λ (p : P). p)) cs)
            (new_replaying counter')) {
              logged_trades = untimed_trades (calls less counter empty_book cs).1;
            }
  replayed counter counter' cs fits =
      let log = (record_calls less (λ (p : P). p) counter new_recording cs).log in
      let st : Replaying P = new_replaying counter' in
      let trades = (calls less counter empty_book cs).1 in
      let events = map (λ (l : LogLine P). l.event) log in
      let (kept, requested, traded, seqs) = record_calls_complete less (λ (p : P). p) counter cs in
      let same_logged : logged events ≡ untimed_trades trades =
        logged-trades_in log ∙ ap logged traded ∙ logged-trade_entry trades in
      let same_requests : perform_requests less events st
          ≡ perform_requests less (map (request (λ (p : P). p)) cs) st =
        perform_requests-requests_in less log st
        ∙ ap (λ es. perform_requests less es st) requested in
      ap (λ ls. replay_lines less f ls st) (split_lines-log_text f faithful log)
      ∙ replay_lines-perform_events less f faithful log st (log-FitsLine counter cs fits)
      ∙ perform_events_split less events st
      ∙ (λ i. record (same_requests i) { logged_trades = same_logged i })

  -- If every id and quantity in some calls is below 2^64 and every price is read back from what is
  -- printed of it, the text of the log of a new `RecordingOrderBook` after the calls, replayed by
  -- `replayFromStream`, gives its book and the trades that the plain calls return, but for
  -- timestamps, reads those trades from the TRADE lines, and finds no mismatch and nothing to warn
  -- of.
  pub replay_recorded :
      (counter counter' : ℕ) (cs : List (Call P))
      → All FitsCall cs
      → let r = record_calls less (λ (p : P). p) counter new_recording cs in
        let trades = (calls less counter empty_book cs).1 in
        let result = replay_from_stream less f counter' (log_text f r.log) in
        (untimed_book result.0.book ≡ untimed_book r.book)
        × (untimed_trades result.0.replayed_trades ≡ untimed_trades trades)
        × (result.0.logged_trades ≡ untimed_trades trades)
        × (result.0.mismatch_count ≡ 0)
        × (result.1 ≡ [])
  unfolding replay_from_stream
  replay_recorded counter counter' cs fits =
      let b = (calls less counter empty_book cs).0 in
      let trades = (calls less counter empty_book cs).1 in
      let state = replayed counter counter' cs fits in
      let kept = (record_calls_complete less (λ (p : P). p) counter cs).0 in
      let reached =
        replay_calls less counter empty_book [] (new_replaying counter') cs
          (record { book = refl; trades = refl; silent = refl }) in
      let same_trades = ap (λ st. untimed_trades st.replayed_trades) state ∙ reached.trades in
      let same_logged = ap (λ (st : Replaying P). st.logged_trades) state in
      (
        ap (λ st. untimed_book st.book) state ∙ reached.book ∙ ap untimed_book (sym kept),
        same_trades,
        same_logged,
        mismatches_zero f.far faithful.far_self _ _
            (same_trades ∙ sym (untimed_trades_idem trades) ∙ ap untimed_trades (sym same_logged)),
        ap (λ (st : Replaying P). st.warnings) state ∙ reached.silent,
      )
