-- ===== src/Lib.antt =====
-- A verification library of the Leviathan matching engine: a limit order book with price-time
-- priority, and a single thread that serves requests on it.
--
-- The program's parts, and where they are modelled:
--
-- - include/order.hpp, `Trade` of include/order_book.hpp: Order.antt. The process-wide timestamp
--   counter is passed in and out of what draws from it, and wraps at 2^64. Ids and quantities are
--   natural numbers, with the wrap of every sum and difference of the source written out; where the
--   range of `uint64_t` matters it is a condition, stated in Bounds.antt.
-- - Prices, `double` in the source, are a parameter: Price.antt has the comparison of `std::less`
--   with its laws on numbers that are not NaN, where -0.0 and 0.0 are one price. Nothing else is
--   used of a price. The examples run on whole ticks.
-- - The side maps `bids_` and `asks_`, and the function templates of src/order_book.cpp over them:
--   Levels.antt. A `std::map` of deques is the list of its levels in the comparator's order. What
--   the source does on either side by an `if` is one definition, given the side's comparator.
-- - `order_index_`: Index.antt, an association list.
-- - The class `OrderBook`: Book.antt has its state and queries, Matching.antt the loop of
--   `submitOrder`, Operations.antt `addOrder`, `cancelOrder`, `submitOrder`, `modifyOrder`. A book is
--   valid (Book/Validity.antt) when both maps are in order, have no empty level and hold each order
--   at its side and price with a quantity left to fill, and the index has just the resting orders.
--   The matching loop runs on fuel for one round more than there are opposing orders: each round but
--   the last removes one, as a valid book holds no order of quantity 0.
-- - Exchange.antt is the specification that the class implements: each side one list of orders, best
--   first, with no levels, index or 64-bit sums.
-- - include/thread_safe_queue.hpp: ThreadSafeQueue.antt. An operation under the mutex is one step,
--   and a `pop` that waits is a result of its own. ThreadSafeQueue/Waiters.antt has the condition
--   variable: consumers that sleep and wake, with or without a notification.
-- - include/matching_engine.hpp, src/matching_engine.cpp: Engine.antt. An execution is a list of
--   steps of the callers and the matching thread, in any order; a promise is a ticket, and the list
--   of the fulfilled ones has their values. `stop` is modelled up to its join, which waits for the
--   thread to be finished. Engine/History.antt relates an execution to serving requests one by one.
--   Engine/Ledger.antt is the specification of the engine: requests done in turn on the abstract
--   exchange, with their answers.
-- - src/recording_order_book.cpp, include/event_log.hpp: Recording.antt. A log line is its sequence
--   number and its fields; Log.antt has its text, and the extractions by which a line is read.
--   Text.antt has what the program uses of the standard streams, on lists of bytes. How a `double` is
--   printed and read is a parameter, `PriceFormat` of Log.antt; the hypothesis `IsFaithful` holds for
--   prices that 6 digits after the point give exactly.
-- - src/replay.cpp, include/replay.hpp: Replay.antt. Warnings on `std::cerr` are a list of lines. The
--   replay runs on a book of its own with its own timestamps: Untimed.antt has books and trades
--   without them. Bounds.antt has the range of `uint64_t`.
-- - tools/replay_tool.cpp: ReplayTool.antt, with the files as a parameter, and ReplayTool/Printed.antt
--   with the printed lines written out. What `getDepth` reserves is bounded by a parameter, the
--   `max_size()` of its vector; memory is not: `std::bad_alloc` is in no model.
--
-- Resting.antt has lists of resting orders, Prelude.antt the names that all modules share, and Tests
-- a sample book with runs of the operations.
--
-- Not modelled: benchmarks/, which measures the operations, and tests/, the repository's own tests.
pub mod Prelude
pub mod Price
pub mod Order
pub mod Resting
pub mod Levels
pub mod Index
pub mod Book
pub mod Matching
pub mod Operations
pub mod Exchange
pub mod ThreadSafeQueue
pub mod Engine
pub mod Recording
pub mod Replay
pub mod Untimed
pub mod Text
pub mod Log
pub mod Bounds
pub mod ReplayTool
pub mod Tests
