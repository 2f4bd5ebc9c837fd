-- ===== src/Recording/Calls.antt =====
-- Sequences of calls of the class `RecordingOrderBook`, src/recording_order_book.cpp, the same calls of
-- a plain `OrderBook`, and the parts of a log.
use leviathan_matching_engin.Prelude.{
  ℕ, zero, suc, ◌%◌, ◌≡◌, refl, ap, sym, ◌∙◌, Option, none, some, List, [], ◌∷◌, ◌++◌, append_assoc,
}
use leviathan_matching_engin.Price.{Comparator}
use leviathan_matching_engin.Order.{Order, Trade, uint64_limit}
use leviathan_matching_engin.Book.{OrderBook}
use leviathan_matching_engin.Operations.{add_order, cancel_order, submit_order, modify_order}
use leviathan_matching_engin.Recording.{
  LogEvent, add_event, cancel_event, modify_event, submit_event, trade_event, LogLine,
  RecordingOrderBook, side_code, type_code, recording_add_order, recording_cancel_order,
  recording_submit_order, recording_modify_order,
}

-- A call of one of the four operations that change the book.
pub data Call (P : Type 0) : Type 0 where
  adds submits : Order P → Call P
  cancels : (order_id : ℕ) → Call P
  modifies : (order_id : ℕ) (new_price : P) (new_quantity : ℕ) → Call P

module _ {P : Type 0} where
  abbrev pub trades_of : Option (List (Trade P)) → List (Trade P)
  trades_of none = []
  trades_of (some trades) = trades

-- The numbers that `nextSeq` draws from 0 on.
abbrev pub numbers : ℕ → List ℕ
numbers zero = []
numbers (suc n) = numbers n ++ n % uint64_limit ∷ []

module _ {T : Type 0} where
  -- The lines that are requests, and those that are trades.
  abbrev pub request_of : LogEvent T → List (LogEvent T)
  request_of (trade_event i j p n) = []
  request_of e = e ∷ []

  abbrev pub trade_of : LogEvent T → List (LogEvent T)
  trade_of (trade_event i j p n) = trade_event i j p n ∷ []
  trade_of _ = []

  abbrev pub requests_in : List (LogLine T) → List (LogEvent T)
  requests_in [] = []
  requests_in (l ∷ ls) = request_of l.event ++ requests_in ls

  abbrev pub trades_in : List (LogLine T) → List (LogEvent T)
  trades_in [] = []
  trades_in (l ∷ ls) = trade_of l.event ++ trades_in ls

  pub requests_in-append :
      (xs ys : List (LogLine T)) → requests_in (xs ++ ys) ≡ requests_in xs ++ requests_in ys
  requests_in-append [] ys = refl
  requests_in-append (x ∷ xs) ys =
      ap (◌++◌ (request_of x.event)) (requests_in-append xs ys)
      ∙ sym (append_assoc (request_of x.event) (requests_in xs) (requests_in ys))

  pub trades_in-append :
      (xs ys : List (LogLine T)) → trades_in (xs ++ ys) ≡ trades_in xs ++ trades_in ys
  trades_in-append [] ys = refl
  trades_in-append (x ∷ xs) ys =
      ap (◌++◌ (trade_of x.event)) (trades_in-append xs ys)
      ∙ sym (append_assoc (trade_of x.event) (trades_in xs) (trades_in ys))

module _ {P T : Type 0} (print : P → T) where
  -- The line that a call is logged as.
  abbrev pub request : Call P → LogEvent T
  request (adds o) = add_event o.id (side_code o.side) (print o.price) o.quantity (type_code o.type)
  request (cancels i) = cancel_event i
  request (submits o) =
      submit_event o.id (side_code o.side) (print o.price) o.quantity (type_code o.type)
  request (modifies i p n) = modify_event i (print p) n

module _ {P : Type 0} (less : Comparator P) where
  -- A call of the plain `OrderBook`: the book, the trades returned, and the timestamp counter.
  abbrev pub call : ℕ → OrderBook P → Call P → OrderBook P × List (Trade P) × ℕ
  call counter b (adds o) = (add_order less b o, [], counter)
  call counter b (cancels i) = ((cancel_order less b i).0, [], counter)
  call counter b (submits o) = let (b', trades) = submit_order less b o in (b', trades, counter)
  call counter b (modifies i p n) =
      let (b', result, counter') = modify_order less counter b i p n in
      (b', trades_of result, counter')

  -- Calls in turn.
  abbrev pub calls : ℕ → OrderBook P → List (Call P) → OrderBook P × List (Trade P)
  calls counter b [] = (b, [])
  calls counter b (c ∷ cs) =
      let (b', trades, counter') = call counter b c in
      let (b'', later) = calls counter' b' cs in (b'', trades ++ later)

module _ {P T : Type 0} (less : Comparator P) (print : P → T) where
  -- The same call of the wrapper.
  abbrev pub record_call : ℕ → RecordingOrderBook P T → Call P → RecordingOrderBook P T × ℕ
  record_call counter r (adds o) = (recording_add_order less print r o, counter)
  record_call counter r (cancels i) = ((recording_cancel_order less print r i).0, counter)
  record_call counter r (submits o) = ((recording_submit_order less print r o).0, counter)
  record_call counter r (modifies i p n) =
      let (r', result, counter') = recording_modify_order less print counter r i p n in
      (r', counter')

  abbrev pub record_calls : ℕ → RecordingOrderBook P T → List (Call P) → RecordingOrderBook P T
  record_calls counter r [] = r
  record_calls counter r (c ∷ cs) =
      let (r', counter') = record_call counter r c in record_calls counter' r' cs
