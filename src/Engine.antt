-- ===== src/Engine.antt =====
-- The class `MatchingEngine` of include/matching_engine.hpp and src/matching_engine.cpp. A promise is a
-- ticket, and fulfilling it puts the ticket with its value on a list. The matching thread and the
-- callers take turns at the steps below; the queue's mutex makes each of them atomic.
pub mod Serving
pub mod History
pub mod Shutdown
pub mod Safety
pub mod Ledger
pub mod Refinement
pub mod Timely
pub mod Completion
use leviathan_matching_engin.Prelude.{
  ℕ, suc, ◌≡◌, Bool, true, false, not, ◌&&◌, ◌||◌, Option, none, some, List, [], ◌∷◌, ◌++◌,
  if◌then◌else◌,
}
use leviathan_matching_engin.Price.{Comparator}
use leviathan_matching_engin.Order.{Order, Trade, next_timestamp}
use leviathan_matching_engin.Book.{OrderBook, empty_book, best_bid, best_ask, total_order_count}
use leviathan_matching_engin.Operations.{add_order, cancel_order, submit_order, modify_order}
use leviathan_matching_engin.ThreadSafeQueue.{
  ThreadSafeQueue, Popped, blocked, drained, item, empty_queue, push, pop, shutdown,
}

-- A request, with the ticket of its promise where it has one.
pub data Request (P : Type 0) : Type 0 where
  add_request : Order P → Request P
  cancel_request : (order_id ticket : ℕ) → Request P
  submit_request : Order P → (ticket : ℕ) → Request P
  modify_request : (order_id : ℕ) (new_price : P) (new_quantity ticket : ℕ) → Request P
  best_bid_request : (ticket : ℕ) → Request P
  best_ask_request : (ticket : ℕ) → Request P
  total_order_count_request : (ticket : ℕ) → Request P

-- The value that a promise is set to.
pub data Response (P : Type 0) : Type 0 where
  cancelled : Bool → Response P
  submitted : List (Trade P) → Response P
  modified : Option (List (Trade P)) → Response P
  best_price : Option P → Response P
  order_count : ℕ → Response P

-- What the matching thread works on: the book, the process-wide timestamp counter, and the promises
-- fulfilled so far.
pub record Desk (P : Type 0) : Type 0 where
  pub book : OrderBook P
  pub counter : ℕ
  pub fulfilled : List (ℕ × Response P)

-- The matching thread: not spawned, waiting in `pop`, with a request in hand, or returned.
pub data Worker (P : Type 0) : Type 0 where
  unborn : Worker P
  waiting : Worker P
  holding : Request P → Worker P
  finished : Worker P

pub record Engine (P : Type 0) : Type 0 where
  pub desk : Desk P
  pub requests : ThreadSafeQueue (Request P)
  pub worker : Worker P
  pub started : Bool
  pub stopped : Bool

-- The steps of all threads: a call of `start` or `stop`, the push of a producer's call, the
-- construction of an `Order`, and a step of the matching thread.
pub data Event (P : Type 0) : Type 0 where
  starts stops draws works : Event P
  pushes : Request P → Event P

module _ {P : Type 0} where
  abbrev pub empty_desk : ℕ → Desk P
  empty_desk counter = record { book = empty_book; counter = counter; fulfilled = [] }

  abbrev pub new_engine : ℕ → Engine P
  new_engine counter = record {
    desk = empty_desk counter;
    requests = empty_queue;
    worker = unborn;
    started = false;
    stopped = false;
  }

  -- `promise.set_value`.
  abbrev pub fulfil : ℕ → Response P → Desk P → Desk P
  fulfil ticket r d = record d { fulfilled = d.fulfilled ++ (ticket, r) ∷ [] }

  -- `start`.
  unfoldable pub start : Engine P → Engine P
  start e = if e.started then e else record e { started = true; worker = waiting }

  -- `stop` up to the join: the flag, and the shutdown of the queue.
  unfoldable pub stop : Engine P → Engine P
  stop e =
      if not e.started || e.stopped
      then e
      else record e { stopped = true; requests = shutdown e.requests }

  -- The push that ends each of the seven calls of a producer.
  unfoldable pub enqueue : Request P → Engine P → Engine P
  enqueue r e = record e { requests = push r e.requests }

  abbrev pub take_popped : Engine P → Popped (Request P) → Engine P
  take_popped e blocked = e
  take_popped e drained = record e { worker = finished }
  take_popped e (item r q) = record e { requests = q; worker = holding r }

module _ {P : Type 0} (less : Comparator P) where
  -- `processRequest_`.
  unfoldable pub process_request : Desk P → Request P → Desk P
  process_request d (add_request order) = record d { book = add_order less d.book order }
  process_request d (cancel_request order_id ticket) =
      let (b, done) = cancel_order less d.book order_id in
      fulfil ticket (cancelled done) (record d { book = b })
  process_request d (submit_request order ticket) =
      let (b, trades) = submit_order less d.book order in
      fulfil ticket (submitted trades) (record d { book = b })
  process_request d (modify_request order_id new_price new_quantity ticket) =
      let (b, result, counter') =
        modify_order less d.counter d.book order_id new_price new_quantity in
      fulfil ticket (modified result) (record d { book = b; counter = counter' })
  process_request d (best_bid_request ticket) = fulfil ticket (best_price (best_bid d.book)) d
  process_request d (best_ask_request ticket) = fulfil ticket (best_price (best_ask d.book)) d
  process_request d (total_order_count_request ticket) =
      fulfil ticket (order_count (total_order_count d.book)) d

  -- One step of `matchingLoop_`: a pop, or the processing of the request in hand.
  abbrev pub work : Engine P → Worker P → Engine P
  work e unborn = e
  work e waiting = take_popped e (pop e.requests)
  work e (holding r) = record e { desk = process_request e.desk r; worker = waiting }
  work e finished = e

  unfoldable pub matching_step : Engine P → Engine P
  matching_step e = work e e.worker

  -- One step of some thread. A caller that constructs an `Order` draws from the timestamp counter.
  unfoldable pub happen : Event P → Engine P → Engine P
  happen starts e = start e
  happen stops e = stop e
  happen (pushes r) e = enqueue r e
  happen draws e = record e { desk = record e.desk { counter = (next_timestamp e.desk.counter).1 } }
  happen works e = matching_step e

  -- An interleaving of the threads' steps.
  unfoldable pub run : List (Event P) → Engine P → Engine P
  run [] e = e
  run (x ∷ xs) e = run xs (happen x e)
