-- ===== src/Engine/Ledger.antt =====
-- What the class `MatchingEngine` of src/matching_engine.cpp promises: its requests done one after another
-- on the abstract exchange, with their answers.
use leviathan_matching_engin.Prelude.{ℕ, ◌+◌, Option, none, some, List, [], ◌∷◌, ◌++◌, length}
use leviathan_matching_engin.Price.{Comparator}
use leviathan_matching_engin.Order.{Order}
use leviathan_matching_engin.Exchange.{Exchange, view, remove, add, submit, modify}
use leviathan_matching_engin.Exchange.Refinement.{has_id}
use leviathan_matching_engin.Engine.{
  Request, add_request, cancel_request, submit_request, modify_request, best_bid_request,
  best_ask_request, total_order_count_request, Response, cancelled, submitted, modified, best_price,
  order_count, Desk,
}

-- The resting orders, and the answers given so far with their tickets.
pub record Ledger (P : Type 0) : Type 0 where
  pub exchange : Exchange P
  pub answers : List (ℕ × Response P)

module _ {P : Type 0} where
  abbrev pub empty_ledger : Ledger P
  empty_ledger = record { exchange = record { bids = []; asks = [] }; answers = [] }

  -- What the ledger shows of the matching thread's state.
  abbrev pub ledger : Desk P → Ledger P
  ledger d = record { exchange = view d.book; answers = d.fulfilled }

  abbrev pub answer : ℕ → Response P → Exchange P → Ledger P → Ledger P
  answer ticket r e l = record { exchange = e; answers = l.answers ++ (ticket, r) ∷ [] }

  -- The price of the first order.
  abbrev pub front_price : List (Order P) → Option P
  front_price [] = none
  front_price (o ∷ os) = some o.price

  -- The quantity that a request may add to the exchange.
  abbrev pub brought : Request P → ℕ
  brought (add_request o) = o.quantity
  brought (submit_request o ticket) = o.quantity
  brought (modify_request i p n ticket) = n
  brought (cancel_request i ticket) = 0
  brought (best_bid_request ticket) = 0
  brought (best_ask_request ticket) = 0
  brought (total_order_count_request ticket) = 0

  abbrev pub total_brought : List (Request P) → ℕ
  total_brought [] = 0
  total_brought (r ∷ rs) = brought r + total_brought rs

module _ {P : Type 0} (less : Comparator P) where
  -- One request, at a value of the timestamp counter.
  abbrev pub transact : ℕ → Request P → Ledger P → Ledger P
  transact counter (add_request o) l = record l { exchange = add less o l.exchange }
  transact counter (cancel_request i ticket) l =
      answer ticket (cancelled (has_id i l.exchange)) (remove i l.exchange) l
  transact counter (submit_request o ticket) l =
      let (e, trades) = submit less o l.exchange in answer ticket (submitted trades) e l
  transact counter (modify_request i p n ticket) l =
      let (e, result, counter') = modify less counter i p n l.exchange in
      answer ticket (modified result) e l
  transact counter (best_bid_request ticket) l =
      answer ticket (best_price (front_price l.exchange.bids)) l.exchange l
  transact counter (best_ask_request ticket) l =
      answer ticket (best_price (front_price l.exchange.asks)) l.exchange l
  transact counter (total_order_count_request ticket) l =
      answer ticket (order_count (length l.exchange.bids + length l.exchange.asks)) l.exchange l

  abbrev pub transact_all : Ledger P → List (Request P × ℕ) → Ledger P
  transact_all l [] = l
  transact_all l ((r, counter) ∷ rest) = transact_all (transact counter r l) rest
