-- ===== src/Untimed.antt =====
-- Orders, trades and books without their timestamps, which include/event_log.hpp says the book of
-- src/order_book.cpp never looks at.
pub mod Maps
pub mod Matching
pub mod Operations
pub mod Modify
use leviathan_matching_engin.Prelude.{ap, suc, length, ℕ, ◌≡◌, refl, List, [], ◌∷◌, ◌++◌, map}
use leviathan_matching_engin.Order.{Side, buy, sell, Order, Trade}
use leviathan_matching_engin.Index.{Index}
use leviathan_matching_engin.Levels.{Levels}
use leviathan_matching_engin.Book.{OrderBook, side_map, set_side}

module _ {P : Type 0} where
  abbrev pub untimed_order : Order P → Order P
  untimed_order o = record o { timestamp = 0 }

  abbrev pub untimed_trade : Trade P → Trade P
  untimed_trade t = record t { timestamp = 0 }

  abbrev pub untimed_orders : List (Order P) → List (Order P)
  untimed_orders [] = []
  untimed_orders (o ∷ q) = untimed_order o ∷ untimed_orders q

  abbrev pub untimed_levels : Levels P → Levels P
  untimed_levels [] = []
  untimed_levels ((k, q) ∷ rest) = (k, untimed_orders q) ∷ untimed_levels rest

  abbrev pub untimed_book : OrderBook P → OrderBook P
  untimed_book b = record b { bids = untimed_levels b.bids; asks = untimed_levels b.asks }

  abbrev pub untimed_trades : List (Trade P) → List (Trade P)
  untimed_trades [] = []
  untimed_trades (t ∷ ts) = untimed_trade t ∷ untimed_trades ts

  pub side_map-untimed_book :
      (s : Side) (b : OrderBook P) → side_map s (untimed_book b) ≡ untimed_levels (side_map s b)
  side_map-untimed_book buy b = refl
  side_map-untimed_book sell b = refl

  pub set_side-untimed_book :
      (s : Side) (m : Levels P) (x : Index P) (b : OrderBook P)
      → set_side s (untimed_levels m) x (untimed_book b) ≡ untimed_book (set_side s m x b)
  set_side-untimed_book buy m x b = refl
  set_side-untimed_book sell m x b = refl

  pub untimed_orders-append :
      (p q : List (Order P)) → untimed_orders (p ++ q) ≡ untimed_orders p ++ untimed_orders q
  untimed_orders-append [] q = refl
  untimed_orders-append (o ∷ p) q = cc (untimed_orders-append p q)

  pub untimed_trades-append :
      (p q : List (Trade P)) → untimed_trades (p ++ q) ≡ untimed_trades p ++ untimed_trades q
  untimed_trades-append [] q = refl
  untimed_trades-append (o ∷ p) q = cc (untimed_trades-append p q)

  untimed_orders_idem : (q : List (Order P)) → untimed_orders (untimed_orders q) ≡ untimed_orders q
  untimed_orders_idem [] = refl
  untimed_orders_idem (o ∷ q) = cc (untimed_orders_idem q)

  untimed_levels_idem : (m : Levels P) → untimed_levels (untimed_levels m) ≡ untimed_levels m
  untimed_levels_idem [] = refl
  untimed_levels_idem ((k, q) ∷ rest) = cc (untimed_orders_idem q, untimed_levels_idem rest)

  pub untimed_book_idem : (b : OrderBook P) → untimed_book (untimed_book b) ≡ untimed_book b
  untimed_book_idem b =
      λ i. record b { bids = untimed_levels_idem b.bids i; asks = untimed_levels_idem b.asks i }

  pub untimed_trades_idem :
      (ts : List (Trade P)) → untimed_trades (untimed_trades ts) ≡ untimed_trades ts
  untimed_trades_idem [] = refl
  untimed_trades_idem (t ∷ ts) = cc (untimed_trades_idem ts)

  pub length-untimed_trades : (ts : List (Trade P)) → length (untimed_trades ts) ≡ length ts
  length-untimed_trades [] = refl
  length-untimed_trades (t ∷ ts) = ap suc (length-untimed_trades ts)
