-- ===== src/Replay/Events.antt =====
-- The events of a log, replayed one after another by src/replay.cpp: requests act on the book, and trades
-- go to the list of logged trades.
use leviathan_matching_engin.Prelude.{
  ℕ, ◌<◌, ◌≡◌, refl, ap, sym, ◌∙◌, List, [], ◌∷◌, ◌++◌, All, map, append_assoc, append-nil,
}
use leviathan_matching_engin.Price.{Comparator}
use leviathan_matching_engin.Order.{Trade, uint64_limit}
use leviathan_matching_engin.Recording.{
  LogEvent, add_event, cancel_event, modify_event, submit_event, trade_event, LogLine,
}
use leviathan_matching_engin.Recording.Calls.{request_of, trade_of, requests_in, trades_in}
use leviathan_matching_engin.Log.{PriceFormat, IsFaithful, event_text}
use leviathan_matching_engin.Replay.{Replaying, perform, parse_line, replay_lines}
use leviathan_matching_engin.Replay.Parsing.{FitsWords, parse_line-event_text}
use leviathan_matching_engin.Replay.Lines.{strip_return-event_text}

module _ {P : Type 0} where
  abbrev pub FitsLine : LogLine P → Type 0
  FitsLine l = (l.seq < uint64_limit) × FitsWords l.event

  abbrev logged_trade : ℕ → ℕ → P → ℕ → Trade P
  logged_trade i j p n = record {
    buy_order_id = i;
    sell_order_id = j;
    price = p;
    quantity = n;
    timestamp = 0;
  }

  -- The trades that the TRADE lines stand for.
  abbrev pub logged : List (LogEvent P) → List (Trade P)
  logged [] = []
  logged (trade_event i j p n ∷ es) = logged_trade i j p n ∷ logged es
  logged (add_event i s p n t ∷ es) = logged es
  logged (cancel_event i ∷ es) = logged es
  logged (modify_event i p n ∷ es) = logged es
  logged (submit_event i s p n t ∷ es) = logged es

  logged-trade_of :
      (e : LogEvent P) (xs ys : List (LogEvent P))
      → logged xs ≡ logged ys
      → logged (e ∷ xs) ≡ logged (trade_of e ++ ys)
  logged-trade_of (trade_event i j p n) xs ys h = ap (◌∷◌ (logged_trade i j p n)) h
  logged-trade_of (add_event i s p n t) xs ys h = h
  logged-trade_of (cancel_event i) xs ys h = h
  logged-trade_of (modify_event i p n) xs ys h = h
  logged-trade_of (submit_event i s p n t) xs ys h = h

  pub logged-trades_in :
      (ls : List (LogLine P)) → logged (map (λ (l : LogLine P). l.event) ls) ≡ logged (trades_in ls)
  logged-trades_in [] = refl
  logged-trades_in (l ∷ ls) =
      logged-trade_of l.event (map (λ (l : LogLine P). l.event) ls) (trades_in ls)
        (logged-trades_in ls)

module _ {P : Type 0} (less : Comparator P) where
  abbrev pub perform_events : List (LogEvent P) → Replaying P → Replaying P
  perform_events [] st = st
  perform_events (e ∷ es) st = perform_events es (perform less e st)

  -- TRADE lines are passed over.
  abbrev pub perform_request : LogEvent P → Replaying P → Replaying P
  perform_request (trade_event i j p n) st = st
  perform_request e st = perform less e st

  abbrev pub perform_requests : List (LogEvent P) → Replaying P → Replaying P
  perform_requests [] st = st
  perform_requests (e ∷ es) st = perform_requests es (perform_request e st)

  -- No request looks at the logged trades.
  perform_requests-logged :
      (es : List (LogEvent P)) (ts : List (Trade P)) (st : Replaying P)
      → perform_requests es (record st { logged_trades = ts })
        ≡ record (perform_requests es st) { logged_trades = ts }
  unfolding perform
  perform_requests-logged [] ts st = refl
  perform_requests-logged (trade_event i j p n ∷ es) ts st = perform_requests-logged es ts st
  perform_requests-logged (add_event i s p n t ∷ es) ts st =
      perform_requests-logged es ts (perform less (add_event i s p n t) st)
  perform_requests-logged (cancel_event i ∷ es) ts st =
      perform_requests-logged es ts (perform less (cancel_event i) st)
  perform_requests-logged (modify_event i p n ∷ es) ts st =
      perform_requests-logged es ts (perform less (modify_event i p n) st)
  perform_requests-logged (submit_event i s p n t ∷ es) ts st =
      perform_requests-logged es ts (perform less (submit_event i s p n t) st)

  pub perform_events_split :
      (es : List (LogEvent P)) (st : Replaying P)
      → perform_events es st
        ≡ record (perform_requests es st) { logged_trades = st.logged_trades ++ logged es }
  unfolding perform
  perform_events_split [] st =
      ap (λ ts. record st { logged_trades = ts }) (sym (append-nil st.logged_trades))
  perform_events_split (trade_event i j p n ∷ es) st =
      let t : Trade P = record {
        buy_order_id = i;
        sell_order_id = j;
        price = p;
        quantity = n;
        timestamp = 0;
      } in
      perform_events_split es (perform less (trade_event i j p n) st)
      ∙ ap
          (λ (r : Replaying P). record r {
            logged_trades = (st.logged_trades ++ t ∷ []) ++ logged es;
          })
          (perform_requests-logged es (st.logged_trades ++ t ∷ []) st)
      ∙ ap (λ ts. record (perform_requests es st) { logged_trades = ts })
          (append_assoc st.logged_trades (t ∷ []) (logged es))
  perform_events_split (add_event i s p n t ∷ es) st =
      perform_events_split es (perform less (add_event i s p n t) st)
  perform_events_split (cancel_event i ∷ es) st =
      perform_events_split es (perform less (cancel_event i) st)
  perform_events_split (modify_event i p n ∷ es) st =
      perform_events_split es (perform less (modify_event i p n) st)
  perform_events_split (submit_event i s p n t ∷ es) st =
      perform_events_split es (perform less (submit_event i s p n t) st)

  perform_requests-request_of :
      (e : LogEvent P) (es : List (LogEvent P)) (st : Replaying P)
      → perform_requests es (perform_request e st) ≡ perform_requests (request_of e ++ es) st
  perform_requests-request_of (trade_event i j p n) es st = refl
  perform_requests-request_of (add_event i s p n t) es st = refl
  perform_requests-request_of (cancel_event i) es st = refl
  perform_requests-request_of (modify_event i p n) es st = refl
  perform_requests-request_of (submit_event i s p n t) es st = refl

  pub perform_requests-requests_in :
      (ls : List (LogLine P)) (st : Replaying P)
      → perform_requests (map (λ (l : LogLine P). l.event) ls) st
        ≡ perform_requests (requests_in ls) st
  perform_requests-requests_in [] st = refl
  perform_requests-requests_in (l ∷ ls) st =
      perform_requests-requests_in ls (perform_request l.event st)
      ∙ perform_requests-request_of l.event (requests_in ls) st

module _ {P : Type 0} (less : Comparator P) (f : PriceFormat P) (faithful : IsFaithful f) where
  -- The text of a log is replayed event by event.
  pub replay_lines-perform_events :
      (ls : List (LogLine P)) (st : Replaying P)
      → All FitsLine ls
      → replay_lines less f (map (λ (l : LogLine P). event_text f l.seq l.event) ls) st
        ≡ perform_events less (map (λ (l : LogLine P). l.event) ls) st
  unfolding replay_lines
  replay_lines-perform_events [] st h = refl
  replay_lines-perform_events (l ∷ ls) st h =
      let rest = map (λ (k : LogLine P). event_text f k.seq k.event) ls in
      ap (λ s. replay_lines less f rest (parse_line less f s st))
        (strip_return-event_text f faithful l.seq l.event)
      ∙ ap (replay_lines less f rest)
          (parse_line-event_text less f faithful l.seq l.event st h.0.0 h.0.1)
      ∙ replay_lines-perform_events ls (perform less l.event st) h.1
